-- ===== src/Oauth.antt =====
-- The login through Google: services/oauthstate/oauthstate.go, and google.go and callback.go of
-- services/endpoints/v1/auth.
pub mod States
pub mod Login
pub mod Redirects
pub mod Lifetime
