-- ===== src/Examples/Data.antt =====
-- A small database: one active user with preferences, a session, a feed, and a source with an
-- article.
use Prim.Native.Char.{Char}
use news_feed_backend.Prelude.{String, Bool, true, false, Option, none, some, [], ◌∷◌}
use news_feed_backend.Prelude.Int.{pos}
use news_feed_backend.Outbound.Anchors.{Nodes, no_nodes, node, element, other}
use news_feed_backend.Judgement.{Evaluator}
use news_feed_backend.Discovery.Items.{DiscoveredArticle}
use news_feed_backend.Discovery.Processor.{Treatment, Ai}
use news_feed_backend.Discovery.Sweep.{Runner}
use news_feed_backend.Store.{
  ok, Article, Feed, RefreshToken, Source, System, User, UserPreference, Db, World,
}
use news_feed_backend.Controllers.Auth.{Claims}

abbrev pub ana : User
ana = record {
  id = "u1";
  google_id = "g1";
  email = "ana@example.com";
  name = "Ana";
  picture = none;
  status = true;
  last_login_at = none;
  created_at = 1;
  modified_at = none;
  removed_at = none;
  admin = true;
  last_active_at = 1;
}

abbrev pub ana_preferences : UserPreference
ana_preferences = record {
  id = "p1";
  user_id = "u1";
  status = true;
  language_to_translate = some "pt";
  ai_personality = "mixed";
  created_at = 1;
  modified_at = none;
  removed_at = none;
}

abbrev pub ana_token : RefreshToken
ana_token = record {
  id = "t1";
  user_id = "u1";
  status = true;
  expires_at = 50;
  created_at = 2;
  modified_at = none;
  removed_at = none;
}

abbrev pub paper : Source
paper = record {
  id = "s1";
  status = true;
  name = "Paper";
  url = "https://paper.example";
  url_rss = "https://paper.example/rss";
  created_at = 3;
  modified_at = none;
  removed_at = none;
}

abbrev pub story : Article
story = record {
  id = "a1";
  status = true;
  title = "Story";
  content = "text";
  url_original = "https://paper.example/1";
  keywords = "sea" ∷ "ship" ∷ "port" ∷ "wind" ∷ "tide" ∷ [];
  source_id = "s1";
  language_original = some "en";
  created_at = 4;
  modified_at = none;
  removed_at = none;
}

abbrev pub sea_feed : Feed
sea_feed = record {
  id = "f1";
  status = true;
  name = "Sea";
  keywords = "sea" ∷ "ship" ∷ "sail" ∷ "deck" ∷ "rope" ∷ [];
  user_id = "u1";
  created_at = 4;
  modified_at = none;
  removed_at = none;
}

abbrev pub panel : System
panel = record {
  id = "y1";
  app_status = false;
  last_article_discovery_at = none;
  created_at = 0;
  modified_at = none;
}

abbrev pub small_db : Db
small_db = record {
  articles = story ∷ [];
  article_outbound_links = [];
  articles_feeds = [];
  feeds = sea_feed ∷ [];
  refresh_tokens = ana_token ∷ [];
  sources = paper ∷ [];
  system = panel ∷ [];
  users = ana ∷ [];
  user_preferences = ana_preferences ∷ [];
}

abbrev pub small_world : World
small_world = record {
  db = small_db;
  now = 10;
  faults = [];
  uuids = some "n1" ∷ some "n2" ∷ some "n3" ∷ some "n4" ∷ [];
}

abbrev pub ana_claims : Claims
ana_claims = record {
  user_id = "u1";
  email = "ana@example.com";
  name = "Ana";
  picture = "";
  refresh_token_id = "t1";
  created_at = 1;
  language_to_translate = some "pt";
  ai_personality = "mixed";
  admin = true;
  expires_at = 60;
  issued_at = 5;
}

-- The letters of the samples are lower case already.
abbrev pub lower_same : Char → Char
lower_same c = c

abbrev pub any_url : String → Bool
any_url s = true

-- What the parse of a token makes: every token is Ana's.
abbrev pub token_of_ana : String → Option Claims
token_of_ana token = some ana_claims

-- A runner: the feed of the source has one new item, whose body links to the story. The AI gives
-- the keywords of the sea feed, and every score is 50.
abbrev pub new_nodes : Nodes
new_nodes =
    node
      (element "a" (record { key = "href"; val = "https://paper.example/1" } ∷ [])
        (node (other "the story" no_nodes) no_nodes))
      no_nodes

abbrev pub triage : Evaluator
triage = record { threshold = 40; ratio_num = 1; ratio_den = 2; min_matches = 2 }

abbrev pub treatment : Treatment
treatment = record {
  parse = λ content. some new_nodes;
  render = λ nodes. some "<a>the story</a>";
  embed = λ content. none;
  sanitize = λ content. content;
  plain_text = λ content. "the story";
  detect = λ title content. some "en";
  client_url = "https://news.example";
  evaluator = triage;
  inactive_days = pos 30;
}

abbrev pub sea_ai : Ai
sea_ai = record {
  keywords = λ title content. ok ("sea" ∷ "ship" ∷ "sail" ∷ "deck" ∷ "rope" ∷ []);
  judge = λ call feed title keywords. ok 50;
}

abbrev pub new_item : DiscoveredArticle
new_item = record {
  title = "New";
  content = "<a>the story</a>";
  url_original = "https://paper.example/2";
  published_at = none;
  source_id = "s1";
}

abbrev pub runner : Runner
runner = record {
  treatment = treatment;
  max_articles = pos 10;
  fetch = λ url. some (
      some (record {
        title = "New";
        content = "<a>the story</a>";
        description = "";
        link = "https://paper.example/2";
        published = none;
      })
      ∷ []);
  ai = λ i. sea_ai;
}
