-- ===== src/Examples/Sweeps.antt =====
-- An article of a sweep on the small database.
use news_feed_backend.Prelude.{
  String, ◌≡◌, refl, true, none, some, List, [], ◌∷◌, exists, find_first,
}
use news_feed_backend.Store.{
  Article, ok, err, ai_failure, with_transaction, begun, finish, committed, read, query, exec,
  answered, new_uuid,
}
use news_feed_backend.Queries.Articles.{create_article, insert_article, update_article_content}
use news_feed_backend.Queries.OutboundLinks.{
  create_article_outbound_link, insert_link, retarget_article_outbound_links_by_href,
}
use news_feed_backend.Queries.Sources.{find_source_by_id}
use news_feed_backend.Controllers.Articles
use news_feed_backend.Controllers.OutboundLinks
use news_feed_backend.Controllers.Keywords.{encode_keywords}
use news_feed_backend.Outbound.Hrefs.{strip_prefix, internal_href_prefix, to_stored}
use news_feed_backend.Outbound.Anchors.{
  collect_distinct_hrefs, collect_node, add_anchor, get_attr, add_href,
}
use news_feed_backend.Outcomes.Tokens.{calm}
use news_feed_backend.Outcomes.Stored.{persist-succeeds}
use news_feed_backend.Outbound.Bodies.{Assigned, assign, assign_ids, id_by_href}
use news_feed_backend.Discovery.Items.{DiscoveredArticle}
use news_feed_backend.Discovery.Persist.{persist, store_article, create_links}
use news_feed_backend.Discovery.Processor.{Ai, process_one}
use news_feed_backend.Outcomes.Persisted.{IsPersisted, persist-IsPersisted}
use news_feed_backend.Outcomes.Skips.{process_one-known, process_one-unnamed}
use news_feed_backend.Examples.Data.{
  small_db, small_world, lower_same, paper, story, treatment, sea_ai, new_item,
}

abbrev old_item : DiscoveredArticle
old_item = record {
  title = "Story";
  content = "text";
  url_original = "https://paper.example/1";
  published_at = some 3;
  source_id = "s1";
}

process_one-known_example :
    (process_one lower_same treatment sea_ai old_item small_world).1.db ≡ small_db
unfolding find_first
process_one-known_example =
    process_one-known lower_same treatment sea_ai old_item story small_world refl

abbrev silent_ai : Ai
silent_ai = record {
  keywords = λ title content. err ai_failure;
  judge = λ call feed title keywords. ok 50;
}

process_one-unnamed_example :
    (process_one lower_same treatment silent_ai new_item small_world).1.db ≡ small_db
process_one-unnamed_example =
    process_one-unnamed lower_same treatment silent_ai new_item small_world
      (λ title text. (ai_failure, refl))

abbrev sea_words : List String
sea_words = "sea" ∷ "ship" ∷ "sail" ∷ "deck" ∷ "rope" ∷ []

-- The new article: its link has the id n2.
abbrev saved_article : Article
saved_article = record {
  id = "n1";
  status = true;
  title = "New";
  content = "<a>the story</a>";
  url_original = "https://paper.example/2";
  keywords = sea_words;
  source_id = "s1";
  language_original = some "en";
  created_at = 10;
  modified_at = none;
  removed_at = none;
}

persist-IsPersisted_example :
    IsPersisted "https://paper.example/2" saved_article
      (persist lower_same treatment.parse treatment.render "https://news.example" new_item
        "<a>the story</a>" sea_words
        (some "en")
        small_world).1.db
unfolding persist store_article create_links with_transaction begun finish committed read query exec
    answered new_uuid create_article insert_article update_article_content
    create_article_outbound_link insert_link retarget_article_outbound_links_by_href
    find_source_by_id Articles.create Articles.update_content OutboundLinks.create
    OutboundLinks.retarget encode_keywords strip_prefix internal_href_prefix to_stored assign
    assign_ids collect_distinct_hrefs collect_node add_anchor get_attr add_href id_by_href exists
    find_first
persist-IsPersisted_example =
    persist-IsPersisted lower_same treatment.parse treatment.render "https://news.example" new_item
      "<a>the story</a>" sea_words (some "en") small_world saved_article refl refl

abbrev story_assigned : Assigned
story_assigned = record {
  content = "<a>the story</a>";
  links = record { id = "n2"; href = "https://paper.example/1" } ∷ [];
}

persist-succeeds_example :
    (saved : Article) × ((persist lower_same treatment.parse treatment.render "https://news.example"
        new_item "<a>the story</a>" sea_words
        (some "en")
        (calm small_db 10 (some "n1" ∷ some "n2" ∷ []))).0
      ≡ ok saved)
unfolding assign assign_ids new_uuid collect_distinct_hrefs collect_node add_anchor get_attr
    add_href id_by_href exists to_stored strip_prefix find_first encode_keywords
persist-succeeds_example =
    persist-succeeds lower_same treatment.parse treatment.render "https://news.example" new_item
      "<a>the story</a>" sea_words (some "en") 10 "n1" small_db (some "n2" ∷ []) [] paper
      (ok story_assigned) refl refl (λ later. refl) ((refl, tt), (refl, tt))
