-- ===== src/Tests/Tools.antt =====
-- The theorems on the tools, on a published post and on an update of a credential.
use social.Prelude.{arith, if◌then◌else◌, none, some, [], ◌∷◌, refl, str_eq}
use social.Table.{count, find?}
use social.Model.{ScheduledPost, published}
use social.Exec.{Sys}
use social.Post.Statements.{has_id}
use social.Tools.{Fields, mcp_update, mcp_publish, mcp_schedule, mcp_archive}
use social.Tools.Frozen.{Refused, IsPublished, published_post-Refused}
use social.Tools.Target.{SameTargets, changed_post-SameTargets}
use social.Tools.{mcp_create}
use social.Model.{mastodon, queued}
use social.Scheduler.Queue.{process_due}
use social.Model.{scheduled}
use social.Tools.Statuses.{KnownStatuses, is_known}
use social.Tools.Vocabulary.{changed_post-KnownStatuses}
use social.Tests.{world, start, tables, post_with}
use social.PostHttp.{handle_post_create, PostBody}
use social.Tools.Lasting.{Stays}
use social.Service.Entry.{ToolCall, call}
use social.Tools.Untouched.{changed_post-Stays}

abbrev moved : Fields
moved key = if str_eq key "credential_id" then some "c2" else none

abbrev done : Sys
done = record start { db = record tables { posts = post_with "p9" published 10 ∷ [] } }

done-IsPublished : IsPublished "p9" done.db
unfolding find? has_id
done-IsPublished = (post_with "p9" published 10, (refl, refl))

published_post-Refused_example :
    Refused done.db (mcp_update "p9" moved (world 200) done)
    × Refused done.db (mcp_publish "p9" (world 200) done)
    × Refused done.db (mcp_schedule "p9" 50 (world 200) done)
    × Refused done.db (mcp_archive "p9" (world 200) done)
published_post-Refused_example =
    published_post-Refused "p9" moved 50 (world 200) done done-IsPublished

changed_post-SameTargets_example :
    SameTargets tables.posts (mcp_update "p1" moved (world 200) start).1.db
    × SameTargets tables.posts (mcp_publish "p1" (world 200) start).1.db
    × SameTargets tables.posts (mcp_schedule "p1" 50 (world 200) start).1.db
    × SameTargets tables.posts (mcp_archive "p1" (world 200) start).1.db
    × SameTargets tables.posts (process_due (world 200) start).1.db
changed_post-SameTargets_example = changed_post-SameTargets "p1" moved 50 (world 200) start

abbrev described : Fields
described key =
    if str_eq key "credential_id"
    then some "c1"
    else if str_eq key "body"
    then some "hello"
    else if str_eq key "status"
    then some "queued"
    else none

abbrev new_post : ScheduledPost
new_post = record {
  id = "new";
  platform = mastodon;
  credential_id = "c1";
  body = "hello";
  media_url = "";
  alt_text = "";
  scheduled_at = none;
  status = queued;
  platform_post_id = "";
  error_msg = "";
  created_at = 1000000000000;
  updated_at = 1000000000000;
}

tables-KnownStatuses : KnownStatuses tables
unfolding is_known
tables-KnownStatuses = search

changed_post-KnownStatuses_example :
    KnownStatuses (mcp_create described (world 200) start).1.db
    × KnownStatuses (mcp_update "p1" described (world 200) start).1.db
    × KnownStatuses (mcp_publish "p1" (world 200) start).1.db
    × KnownStatuses (mcp_schedule "p1" 50 (world 200) start).1.db
    × KnownStatuses (mcp_archive "p1" (world 200) start).1.db
    × KnownStatuses (process_due (world 200) start).1.db
changed_post-KnownStatuses_example =
    changed_post-KnownStatuses "p1" described 50 (world 200) start tables-KnownStatuses

abbrev kept_post : ScheduledPost
kept_post = post_with "p9" published 10

done-Stays : Stays kept_post done.db
unfolding count has_id
done-Stays = record { there = omega arith; same = ((λ e. refl), tt) }

abbrev posted : PostBody
posted = record {
  platform = "";
  credential_id = "c1";
  body = "hello";
  media_url = "";
  alt_text = "";
  scheduled_at = none;
  status = "";
}

changed_post-Stays_example :
    Stays kept_post (call (ToolCall.delete_credential "c1") (world 200) done).1.db
    × Stays kept_post (handle_post_create "token" (some posted) (world 200) done).1.db
    × Stays kept_post (process_due (world 200) done).1.db
changed_post-Stays_example =
    changed_post-Stays kept_post (ToolCall.delete_credential "c1") "token" (some posted) (world 200)
      done refl (λ e. absurd (cc)) done-Stays
