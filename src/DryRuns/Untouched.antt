-- ===== src/DryRuns/Untouched.antt =====
-- The dry runs and the database.
use Prim.Native.Char.{Char}
use news_feed_backend.Prelude.{
  ℕ, String, str_eq, ◌≡◌, ◌∙◌, refl, Bool, true, false, Option, none, some, List, [], ◌∷◌,
}
use news_feed_backend.Prelude.Int.{ℤ}
use news_feed_backend.Store.{
  Article, Db, Error, World, Result, ok, err, M, Keeps, Keeps-Leads, with_transaction,
  with_transaction-Keeps, >>=-Keeps, read-Keeps, pure-Keeps, raise-Keeps, map_err-Keeps,
  attempt-Keeps,
}
use news_feed_backend.Queries.Articles.{find_article_by_id, find_article_by_url_original}
use news_feed_backend.Queries.Feeds.{find_candidate_feeds_by_keywords}
use news_feed_backend.Queries.Sources.{find_source_by_id}
use news_feed_backend.Controllers.Articles
use news_feed_backend.Controllers.Feeds
use news_feed_backend.Controllers.Sources
use news_feed_backend.Outbound.Anchors.{Nodes}
use news_feed_backend.Judgement.{Evaluator}
use news_feed_backend.Discovery.Items.{FeedItem, DiscoveredArticle}
use news_feed_backend.Discovery.Lookup.{is_article_not_found}
use news_feed_backend.Discovery.Processor.{Treatment, treat_urls, result_or}
use news_feed_backend.Endpoints.Reply.{Handler}
use news_feed_backend.History.Discoveries.{urls_treated}
use news_feed_backend.Reading.Untouched.{
  Spares, respond_same, guarded_same, with_body_same, links_keep,
}
use news_feed_backend.Ai.Answers.{Translation}
use news_feed_backend.DryRuns.Judging.{
  Judger, JudgeArticleRequest, of_result, judge_with, judge_article,
}
use news_feed_backend.DryRuns.Treating.{Keyworder, TreatArticleRequest, treat_with, treat_article}
use news_feed_backend.DryRuns.Translating.{
  FoundBody, find_body, go_on, translate_found, translate_article,
}
use news_feed_backend.DryRuns.Sweeping.{
  unless_failed, fresh_of, filter_items, filter_new_by_url_original, filter_discovered,
  source_article_discovery,
}

module _ (I : Db → Type 0) where
  of_result-Keeps : {A : Type 0} (r : Result A) → Keeps I (of_result r)
  of_result-Keeps (ok a) = pure-Keeps I a
  of_result-Keeps (err e) = raise-Keeps I e

  candidates-Keep :
      (lower : Char → Char) (days : ℤ) (ks : List String)
      → Keeps I (with_transaction (Feeds.find_candidates_by_keywords lower ks days))
  unfolding Feeds.find_candidates_by_keywords find_candidate_feeds_by_keywords
  candidates-Keep lower days [] = with_transaction-Keeps I (Keeps-Leads I (pure-Keeps I []))
  candidates-Keep lower days (k ∷ ks) = with_transaction-Keeps I (Keeps-Leads I (read-Keeps I _))

  treat_urls-Keeps :
      (lower : Char → Char) (t : Treatment) (b : Bool) (content : String)
      → Keeps I (treat_urls lower t b content)
  treat_urls-Keeps lower t true content = pure-Keeps I content
  treat_urls-Keeps lower t false content =
      >>=-Keeps I (attempt-Keeps I (urls_treated I t.parse t.render t.client_url content))
        (λ r. pure-Keeps I (result_or content r))

  find_body-Keeps : (id : String) → Keeps I (with_transaction (find_body id))
  unfolding find_body Articles.find_by_id find_article_by_id
  find_body-Keeps id = with_transaction-Keeps I (
      Keeps-Leads I (
        >>=-Keeps I (map_err-Keeps I _ (read-Keeps I _))
          (λ a. >>=-Keeps I (links_keep I _) (λ l. pure-Keeps I _))))

  fresh_of-Keeps :
      (item : DiscoveredArticle) (r : Result Article) (rest : M (List DiscoveredArticle))
      → Keeps I rest
      → Keeps I (fresh_of item r rest)
  fresh_of-Keeps item (ok a) rest k = k
  fresh_of-Keeps item (err e) rest k =
      unless (is_article_not_found e) (>>=-Keeps I k (λ items. pure-Keeps I _))
    where
      unless :
          (b : Bool) {more : M (List DiscoveredArticle)}
          → Keeps I more
          → Keeps I (unless_failed b e more)
      unless true h = h
      unless false h = raise-Keeps I e

  filter_items-Keeps : (items : List DiscoveredArticle) → Keeps I (filter_items items)
  unfolding filter_items Articles.find_by_url_original find_article_by_url_original
  filter_items-Keeps [] = pure-Keeps I []
  filter_items-Keeps (item ∷ items) =
      >>=-Keeps I (attempt-Keeps I (map_err-Keeps I _ (read-Keeps I _)))
        (λ r. fresh_of-Keeps item r _ (filter_items-Keeps items))

  filter_discovered-Keeps : (o : Option (List DiscoveredArticle)) → Keeps I (filter_discovered o)
  unfolding filter_new_by_url_original
  filter_discovered-Keeps none = raise-Keeps I _
  filter_discovered-Keeps (some items) =
      with_transaction-Keeps I (Keeps-Leads I (filter_items-Keeps items))

  find_source-Keeps : (id : String) → Keeps I (with_transaction (Sources.find_by_id id))
  unfolding Sources.find_by_id find_source_by_id
  find_source-Keeps id =
      with_transaction-Keeps I (Keeps-Leads I (map_err-Keeps I _ (read-Keeps I _)))

module _ (w : World) where
  judge_article-Spares :
      (lower : Char → Char) (evaluator : Evaluator) (days : ℤ) (judgers : String → Option Judger)
      (mode : String) (body : Option JudgeArticleRequest)
      → Spares (judge_article lower evaluator days judgers mode body) w
  unfolding judge_article judge_with
  judge_article-Spares lower evaluator days judgers mode body = with_body_same body _ w (λ r.
      guarded_same _ _ w (
        guarded_same _ _ w (
          with_body_same _ _ w (λ ask.
            respond_same _ _ _
              (λ I.
                >>=-Keeps I (candidates-Keep I lower days r.keywords)
                  (λ cs. >>=-Keeps I (of_result-Keeps I _) (λ results. pure-Keeps I _)))
              w))))

  treat_article-Spares :
      (lower : Char → Char) (t : Treatment) (keyworders : String → Option Keyworder) (mode : String)
      (body : Option TreatArticleRequest)
      → Spares (treat_article lower t keyworders mode body) w
  unfolding treat_article treat_with
  treat_article-Spares lower t keyworders mode body = with_body_same body _ w (λ r.
      guarded_same _ _ w (
        guarded_same _ _ w (
          with_body_same _ _ w (λ name.
            respond_same _ _ _
              (λ I.
                >>=-Keeps I (treat_urls-Keeps I lower t (str_eq t.client_url "") r.content)
                  (λ out. >>=-Keeps I (of_result-Keeps I _) (λ keywords. pure-Keeps I _)))
              w))))

  go_on-Spares :
      {A B : Type 0} (failure : Error → ℕ) (next : A → Handler B) (m : M A)
      → ((I : Db → Type 0) → Keeps I m)
      → ((a : A) (v : World) → (next a v).1.db ≡ v.db)
      → (go_on failure next (m w)).1.db ≡ w.db
  go_on-Spares {A = A} failure next m keeps same = go (m w) ((keeps (λ d. d ≡ w.db)).at w refl)
    where
      go : (x : Result A × World) → x.1.db ≡ w.db → (go_on failure next x).1.db ≡ w.db
      go (ok a, v) h = same a v ∙ h
      go (err e, v) h = h

  source_article_discovery-Spares :
      (fetch : String → Option (List (Option FeedItem))) (parse_time : String → Option ℕ)
      (id raw : String)
      → Spares (source_article_discovery fetch parse_time id raw) w
  unfolding source_article_discovery
  source_article_discovery-Spares fetch parse_time id raw = with_body_same _ _ w (λ since.
      respond_same _ _ _
        (λ I. >>=-Keeps I (find_source-Keeps I id) (λ source. filter_discovered-Keeps I _)) w)

translate_found-Spares :
    (parse : String → Option Nodes) (render : Nodes → Option String) (sanitize : String → String)
    (translate : String → String → String → String → Result Translation)
    (client_url target personality : String) (found : FoundBody) (v : World)
    → (translate_found parse render sanitize translate client_url target personality found v).1.db
      ≡ v.db
unfolding translate_found
translate_found-Spares parse render sanitize translate client_url target personality found v =
    with_body_same _ _ v (λ original. guarded_same _ _ v (
      respond_same _ _ _ (λ I. >>=-Keeps I (of_result-Keeps I _) (λ translation. pure-Keeps I _))
        v))

module _ (w : World) where
  -- Whatever statements fail, the dry runs and the translation leave the database as it was.
  pub dry_runs-Spare :
      (lower : Char → Char) (evaluator : Evaluator) (days : ℤ) (judgers : String → Option Judger)
      (t : Treatment) (keyworders : String → Option Keyworder) (mode : String)
      (judged : Option JudgeArticleRequest) (treated : Option TreatArticleRequest)
      (translate : String → String → String → String → Result Translation)
      (language : Option String) (personality id raw : String)
      (fetch : String → Option (List (Option FeedItem))) (parse_time : String → Option ℕ)
      → Spares (judge_article lower evaluator days judgers mode judged) w
        × (Spares (treat_article lower t keyworders mode treated) w
            × (Spares
                  (translate_article t.parse t.render t.sanitize translate t.client_url language
                    personality id)
                  w
                × Spares (source_article_discovery fetch parse_time id raw) w))
  unfolding translate_article
  dry_runs-Spare lower evaluator days judgers t keyworders mode judged treated translate language
        personality id raw fetch parse_time =
      (
        judge_article-Spares w lower evaluator days judgers mode judged,
        (
          treat_article-Spares w lower t keyworders mode treated,
          (
            guarded_same _ _ w (
                with_body_same language _ w (λ target. guarded_same _ _ w (
                  go_on-Spares w _ _ (with_transaction (find_body id)) (λ I. find_body-Keeps I id)
                    (λ found v.
                      translate_found-Spares t.parse t.render t.sanitize translate t.client_url
                        target personality found v)))),
            source_article_discovery-Spares w fetch parse_time id raw,
          ),
        ),
      )
