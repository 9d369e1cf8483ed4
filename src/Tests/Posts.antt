-- ===== src/Tests/Posts.antt =====
-- The theorems on posts and credentials, on concrete tables.
use social.Prelude.{
  List, String, ltb, ◌==◌, if◌then◌else◌, none, some, [], ◌∷◌, ◌≡◌, ◌↔◌, refl, arith, Mem,
}
use social.Table.{count}
use social.Table.Order.{IsOrdered}
use social.Model.{PostStatus, PlatformCredential, x_twitter, ScheduledPost, scheduled, queued}
use social.Model.Errors.{ok, err, database, not_found}
use social.Exec.{Sys, Env}
use social.Platform.Text.{runes}
use social.Platform.Twitter.{publish, too_long}
use social.Platform.Twitter.Limit.{weigh, x_weighted_body_len-weigh, publish-too_long}
use social.Platform.Twitter.Weight.{x_weighted_body_len, match_url}
use social.Post.{order_clause_for_statuses, comparison, delete_post, due_posts, list_posts, wanted}
use social.Post.Statements.{scheduled_first, has_id, is_credential, is_due}
use social.Post.Delete.{without_post, delete_post_atomic, delete_post-exact}
use social.Post.Due.{due_posts-exact, IsDue, NotLater}
use social.Post.Listing.{list_posts-exact, IsWanted, Arranged}
use social.Table.Order.{Pairwise}
use social.Post.References.{References}
use social.Credential.{in_use, delete_credential, uses_credential}
use social.Credential.References.{delete_credential-result, delete_credential-References}
use social.Tests.{world, start, tables, post_with, config}

-- A world in which the second call of the database fails.
abbrev failing : Env
failing = record (world 200) { db_fault = λ k. if k == 1 then some "disk full" else none }

failing_result : (delete_post "p1" failing start).0 ≡ err (database "disk full")
unfolding delete_post
failing_result = refl

delete_post_atomic_example : (delete_post "p1" failing start).1.db ≡ tables
delete_post_atomic_example =
    delete_post_atomic "p1" failing start (database "disk full") refl failing_result

delete_post-exact_example :
    ((delete_post "p1" (world 200) start).0
      ≡ (if count (has_id "p1") tables.posts == 0 then err not_found else ok tt))
    × ((delete_post "p1" (world 200) start).1.db
        ≡ (if count (has_id "p1") tables.posts == 0 then tables else without_post "p1" tables))
delete_post-exact_example = delete_post-exact "p1" (world 200) start refl (λ k. refl)

-- Two posts that are due, the later one first, and one that is not.
abbrev late : ScheduledPost
late = post_with "late" scheduled 30

abbrev early : ScheduledPost
early = post_with "early" scheduled 10

abbrev far : ScheduledPost
far = post_with "far" scheduled 2000000000000

abbrev waiting : ScheduledPost
waiting = let p : ScheduledPost = post_with "waiting" queued 5 in record p { scheduled_at = none }

abbrev crowded : Sys
crowded = record start { db = record tables { posts = waiting ∷ late ∷ far ∷ early ∷ [] } }

due_result : (due_posts (world 200) crowded).0 ≡ ok (early ∷ late ∷ [])
unfolding due_posts social.Table.Order.order_by social.Table.select is_due scheduled_first
due_result = refl

due_posts-exact_example :
    ((p : ScheduledPost)
      → Mem p (early ∷ late ∷ []) ↔ (Mem p crowded.db.posts × IsDue 1000000000000 p))
    × Pairwise NotLater (early ∷ late ∷ [])
due_posts-exact_example = due_posts-exact (world 200) crowded (early ∷ late ∷ []) due_result

abbrev ahead : List PostStatus
ahead = scheduled ∷ queued ∷ []

abbrev listed : List ScheduledPost
listed = early ∷ late ∷ far ∷ waiting ∷ []

listed_result : (list_posts ahead (world 200) crowded).0 ≡ ok listed
unfolding list_posts social.Table.Order.order_by social.Table.select wanted comparison
    order_clause_for_statuses
listed_result = refl

list_posts-exact_example :
    ((p : ScheduledPost) → Mem p listed ↔ (Mem p crowded.db.posts × IsWanted ahead p))
    × Arranged ahead listed
list_posts-exact_example = list_posts-exact ahead (world 200) crowded listed listed_result

delete_credential-result_example : (delete_credential "c1" (world 200) start).0 ≡ (
    if ltb 0 (count (uses_credential "c1") tables.posts)
    then err (in_use "c1" (count (uses_credential "c1") tables.posts))
    else if count (is_credential "c1") tables.credentials == 0
    then err not_found
    else ok tt)
delete_credential-result_example = delete_credential-result "c1" (world 200) start refl refl

pub tables-References : References tables
unfolding count has_id is_credential
tables-References = record {
  posts = (omega arith, (omega arith, tt));
  attempts = (omega arith, (omega arith, (omega arith, (omega arith, tt))));
}

delete_credential-References_example : References (delete_credential "c1" (world 200) start).1.db
delete_credential-References_example =
    delete_credential-References "c1" (world 200) start tables-References

x_weighted_body_len-weigh_example :
    x_weighted_body_len "see https://example.org/a/long/path now"
    ≡ weigh 0 (runes "see https://example.org/a/long/path now")
x_weighted_body_len-weigh_example =
    x_weighted_body_len-weigh "see https://example.org/a/long/path now"

weight_with_url : x_weighted_body_len "see https://example.org/a/long/path now" ≡ 31
unfolding x_weighted_body_len match_url
weight_with_url = refl

abbrev links : String
links =
    "http://a http://a http://a http://a http://a http://a http://a http://a http://a http://a http://a http://a"

links_weight : weigh 0 (runes links) ≡ 287
unfolding weigh runes match_url
links_weight = refl

abbrev long_post : ScheduledPost
long_post = record (post_with "p4" scheduled 30) { body = links }

abbrev account : PlatformCredential
account = record {
  id = "c2";
  platform = x_twitter;
  name = "main";
  instance_url = "";
  actor_id = "7";
  expires_at = none;
  created_at = 1;
  updated_at = 1;
  access_token = "token";
  refresh_token = "";
}

publish-too_long_example :
    publish config long_post account (world 201) start
    ≡ (err (too_long (weigh 0 (runes links))), start)
publish-too_long_example =
    publish-too_long config long_post account (world 201) start (omega (arith, links_weight))
