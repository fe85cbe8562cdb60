-- ===== src/History/Sweeps.antt =====
-- A sweep of the scheduler keeps what the writing steps keep.
use Prim.Native.Char.{Char}
use news_feed_backend.Prelude.{
  ℕ, ◌+◌, String, str_eq, Bool, true, false, Option, none, some, List, [], ◌∷◌,
}
use news_feed_backend.Prelude.Int.{ℤ}
use news_feed_backend.Store.{
  Article, Source, Db, Result, ok, err, Keeps, Keeps-Leads, with_transaction-Keeps, >>=-Keeps,
  >>=-Leads, map_err-Keeps, read-Keeps, pure-Keeps, new_uuid-Keeps, attempt-Keeps, now_is-Keeps,
}
use news_feed_backend.Queries.Listing.{list_all_sources}
use news_feed_backend.Queries.ControlPanel.{get_system}
use news_feed_backend.Queries.Feeds.{find_candidate_feeds_by_keywords, CandidateRow}
use news_feed_backend.Controllers.Articles
use news_feed_backend.Controllers.ArticlesFeeds
use news_feed_backend.Controllers.ControlPanel
use news_feed_backend.Controllers.Feeds
use news_feed_backend.Controllers.OutboundLinks
use news_feed_backend.Controllers.Sources
use news_feed_backend.Outbound.Hrefs.{internal_href}
use news_feed_backend.Outbound.Bodies.{Link, Assigned}
use news_feed_backend.Judgement.{Outcome}
use news_feed_backend.Discovery.Items.{DiscoveredArticle}
use news_feed_backend.Discovery.Persist.{create_links, with_links, linked, store_article, persist}
use news_feed_backend.Discovery.Judge
use news_feed_backend.Discovery.Judge.{associate_if, associate_all, associate_results, judge}
use news_feed_backend.Discovery.Processor
use news_feed_backend.Discovery.Processor.{
  Treatment, Ai, result_or, treat_new, process_one, process,
}
use news_feed_backend.Discovery.Sweep
use news_feed_backend.Discovery.Sweep.{Runner, read_sources, run_sweep}
use news_feed_backend.History.Steps.{Preserves}
use news_feed_backend.History.Discoveries.{known, links_assigned, urls_treated}

module _ {lower : Char → Char} {I : Db → Type 0} (s : Preserves lower I) where
  links_created :
      (article_id : String) (links : List Link) → Keeps I (create_links article_id links)
  unfolding create_links OutboundLinks.create
  links_created article_id [] = pure-Keeps I tt
  links_created article_id (l ∷ links) =
      >>=-Keeps I (s.link_insert l.id article_id l.href) λ row. links_created article_id links

  links_kept : (saved : Article) (r : Result Assigned) → Keeps I (linked saved r)
  unfolding Articles.update_content
  links_kept saved (err e) = pure-Keeps I saved
  links_kept saved (ok assigned) = go assigned.links
    where
      go : (links : List Link) → Keeps I (with_links saved assigned.content links)
      go [] = pure-Keeps I saved
      go (l ∷ links) =
          >>=-Keeps I (links_created saved.id (l ∷ links))
            λ _. >>=-Keeps I (s.content_update assigned.content saved.id) λ _. pure-Keeps I _

  associated :
      (b : Bool) (article_id feed_id : String) → Keeps I (associate_if b article_id feed_id)
  unfolding ArticlesFeeds.create
  associated false article_id feed_id = pure-Keeps I tt
  associated true article_id feed_id =
      >>=-Keeps I
        (attempt-Keeps I (
          with_transaction-Keeps I (
            Keeps-Leads I
              (>>=-Keeps I (new_uuid-Keeps I) λ id. s.association id article_id feed_id))))
        λ r. pure-Keeps I tt

  all_associated : (article_id : String) (os : List Outcome) → Keeps I (associate_all article_id os)
  unfolding associate_all
  all_associated article_id [] = pure-Keeps I tt
  all_associated article_id (o ∷ os) =
      >>=-Keeps I (associated o.passed article_id o.feed.id) λ _. all_associated article_id os

  results_associated :
      (article_id : String) (r : Result (List Outcome)) → Keeps I (associate_results article_id r)
  results_associated article_id (err e) = pure-Keeps I tt
  results_associated article_id (ok os) = all_associated article_id os

  candidates_found :
      (keywords : List String) (inactive_days : ℤ)
      → Keeps I (Feeds.find_candidates_by_keywords lower keywords inactive_days)
  unfolding Feeds.find_candidates_by_keywords find_candidate_feeds_by_keywords
  candidates_found [] inactive_days = pure-Keeps I []
  candidates_found (k ∷ keywords) inactive_days = read-Keeps I _

  module _ (t : Treatment) where
    stored :
        (a : DiscoveredArticle) (content : String) (keywords : List String)
        (language : Option String)
        → Keeps I (persist lower t.parse t.render t.client_url a content keywords language)
    unfolding persist store_article OutboundLinks.retarget
    stored a content keywords language = with_transaction-Keeps I (
        >>=-Leads I (λ _. I) (λ _. I)
          (s.article_creation a.title content a.url_original a.source_id keywords language)
          λ created. Keeps-Leads I (
            >>=-Keeps I
              (attempt-Keeps I (links_assigned I t.parse t.render created.content t.client_url))
              λ r. >>=-Keeps I (links_kept created r) λ saved.
                >>=-Keeps I (s.link_retarget (internal_href saved.id) saved.url_original)
                  λ _. pure-Keeps I saved))

    judged :
        (ai : Ai) (a : Article) (keywords : List String)
        → Keeps I (judge lower ai.judge t.evaluator t.inactive_days a keywords)
    unfolding judge
    judged ai a keywords =
        >>=-Keeps I
          (attempt-Keeps I
            (with_transaction-Keeps I (Keeps-Leads I (candidates_found keywords t.inactive_days))))
          go
      where
        go :
            (r : Result (List CandidateRow))
            → Keeps I
                (Judge.judge_candidates lower ai.judge t.evaluator t.inactive_days a keywords r)
        go (err e) = pure-Keeps I tt
        go (ok []) = pure-Keeps I tt
        go (ok (c ∷ cs)) = results_associated a.id _

    new_treated : (ai : Ai) (a : DiscoveredArticle) → Keeps I (treat_new lower t ai a)
    unfolding treat_new
    new_treated ai a = >>=-Keeps I (body (str_eq t.client_url "")) λ b. kept (t.sanitize _) _
      where
        body : (b : Bool) → Keeps I (Processor.treat_urls lower t b a.content)
        body true = pure-Keeps I a.content
        body false =
            >>=-Keeps I (attempt-Keeps I (urls_treated I t.parse t.render t.client_url a.content))
              λ r. pure-Keeps I (result_or a.content r)

        after :
            (keywords : List String) (r : Result Article)
            → Keeps I (Processor.judge_saved lower t ai keywords r)
        after keywords (err e) = pure-Keeps I tt
        after keywords (ok saved) = judged ai saved keywords

        kept :
            (content : String) (r : Result (List String))
            → Keeps I (Processor.keep_article lower t ai a content r)
        kept content (err e) = pure-Keeps I tt
        kept content (ok keywords) =
            >>=-Keeps I (attempt-Keeps I (stored a content keywords (t.detect a.title a.content)))
              (after keywords)

    one_processed : (ai : Ai) (a : DiscoveredArticle) → Keeps I (process_one lower t ai a)
    unfolding process_one
    one_processed ai a = >>=-Keeps I (attempt-Keeps I (known I a.url_original)) go
      where
        go : (r : Result Bool) → Keeps I (Processor.unless_known lower t ai a r)
        go (err e) = pure-Keeps I tt
        go (ok true) = pure-Keeps I tt
        go (ok false) = new_treated ai a

    all_processed :
        (ai : ℕ → Ai) (i : ℕ) (as_found : List DiscoveredArticle)
        → Keeps I (process lower t ai i as_found)
    unfolding process
    all_processed ai i [] = pure-Keeps I tt
    all_processed ai i (a ∷ as_found) =
        >>=-Keeps I (one_processed (ai i) a) λ _. all_processed ai (i + 1) as_found

  sources_read : Keeps I read_sources
  unfolding read_sources ControlPanel.get get_system Sources.list_all list_all_sources
  sources_read = >>=-Keeps I (map_err-Keeps I _ (read-Keeps I _)) λ system. go system.app_status
    where
      go : (b : Bool) → Keeps I (Sweep.sources_if b)
      go false = pure-Keeps I none
      go true = >>=-Keeps I (read-Keeps I _) λ sources. pure-Keeps I (some sources)

  -- A sweep, whatever the network, the AI and the statements do.
  pub swept : (r : Runner) → Keeps I (run_sweep lower r)
  unfolding run_sweep ControlPanel.update_last_article_discovery
  swept r =
      >>=-Keeps I (now_is-Keeps I)
        λ now. >>=-Keeps I (with_transaction-Keeps I (Keeps-Leads I sources_read)) (go now)
    where
      go : (now : ℕ) (found : Option (List Source)) → Keeps I (Sweep.sweep lower r now found)
      go now none = pure-Keeps I tt
      go now (some sources) = >>=-Keeps I (all_processed r.treatment r.ai 0 _) λ _.
          >>=-Keeps I
            (with_transaction-Keeps I (Keeps-Leads I (map_err-Keeps I _ (s.watermark_update _))))
            λ _. pure-Keeps I tt
