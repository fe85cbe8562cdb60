-- ===== src/Examples/Answers.antt =====
-- Answers of a model, and a dry run of the judgement.
use Prim.Native.String.{String}
use news_feed_backend.Prelude.{
  ◌≡◌, refl, str_eq, true, Option, none, some, List, [], ◌∷◌, exists, if◌then◌else◌,
}
use news_feed_backend.Prelude.Int.{ℤ, pos}
use news_feed_backend.Store.{ok, with_transaction, begun, finish, committed, read, query, answered}
use news_feed_backend.Queries.Feeds.{find_candidate_feeds_by_keywords, candidate_rows, overlap}
use news_feed_backend.Controllers.Feeds
use news_feed_backend.Controllers.Keywords.{normalize_keywords, trim_space, to_lower}
use news_feed_backend.Pagination.{signed}
use news_feed_backend.Judgement.{evaluate, judged}
use news_feed_backend.Discovery.Judge.{judge}
use news_feed_backend.Outbound.Hrefs.{strip_prefix}
use news_feed_backend.Endpoints.Reply.{respond, guarded, with_body}
use news_feed_backend.Outcomes.Tokens.{calm}
use news_feed_backend.Ai.Answers.{Translation, parse_keywords, parse_score, parse_translation}
use news_feed_backend.Ai.Fences.{fenced, parse-fenced}
use news_feed_backend.DryRuns.Judging.{
  Judger, ArticleJudgementResponse, judge_with, judge_article, mode_or,
}
use news_feed_backend.DryRuns.Agreement.{passed_feeds, associate_feeds, judge_article-agrees}
use news_feed_backend.Examples.Data.{lower_same, story, triage}
use news_feed_backend.Examples.Reading.{reading_db}

-- One text decodes to six keywords, of which two are the same.
abbrev six_words : String → Option (List String)
six_words s =
    if str_eq s "[]" then some ("sea" ∷ " ship" ∷ "port" ∷ "sea" ∷ "wind" ∷ "tide" ∷ []) else none

abbrev no_words : String → Option (List String)
no_words s = none

abbrev bare_score : String → Option ℤ
bare_score s = some (pos 70)

abbrev no_score : String → Option (Option ℤ)
no_score s = some none

abbrev no_translation : String → Option Translation
no_translation s = none

parse-fenced_example :
    (parse_keywords lower_same six_words no_words (fenced "[]")
      ≡ parse_keywords lower_same six_words no_words "[]")
    × ((parse_score no_score bare_score (fenced "[]") ≡ parse_score no_score bare_score "[]")
        × (parse_translation no_translation (fenced "[]") ≡ parse_translation no_translation "[]"))
unfolding strip_prefix trim_space
parse-fenced_example =
    parse-fenced lower_same six_words no_words no_score bare_score no_translation "[]" refl

abbrev fifty : Judger
fifty call feed title keywords = ok 50

abbrev local_only : String → Option Judger
local_only mode = if str_eq mode "local" then some fifty else none

abbrev sea_judgements : ArticleJudgementResponse
sea_judgements = record {
  judgement_mode = "local";
  threshold = 40;
  candidate_count = 1;
  judgements =
      record {
        feed_id = "f1";
        feed_name = "Sea";
        overlap = 2;
        decision = judged;
        score = 50;
        passed = true;
      }
      ∷ [];
}

judge_article-agrees_example :
    (ask : Judger) × ((local_only (mode_or "local" "") ≡ some ask)
      × (judge lower_same ask triage (pos 30) story story.keywords (calm reading_db 10 [])
          ≡ associate_feeds "a1" (passed_feeds sea_judgements.judgements) (calm reading_db 10 [])))
unfolding judge_article judge_with respond guarded with_body with_transaction begun finish committed
    Feeds.find_candidates_by_keywords find_candidate_feeds_by_keywords candidate_rows overlap read
    query answered evaluate normalize_keywords trim_space to_lower exists signed
judge_article-agrees_example =
    judge_article-agrees lower_same triage (pos 30) reading_db 10 [] local_only "local" "" story
      story.keywords 200 sea_judgements refl
