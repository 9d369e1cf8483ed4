-- ===== src/Post/Statements.antt =====
-- The SQL statements of post.go on smeldr_social_posts and smeldr_social_delivery_log, with the
-- constraints that schema.go declares: primary keys and references.
use social.Prelude.{
  ltb, leb, ◌==◌, String, Bool, true, false, ◌&&◌, Option, none, some, List, [], ◌∷◌, ◌++◌,
  if◌then◌else◌, str_eq,
}
use social.Table.{count, update, delete}
use social.Model.{Time, ScheduledPost, DeliveryAttempt, CredentialRow, published, failed}
use social.Model.Status.{is_scheduled}
use social.Model.Errors.{Error, database, ok, err}
use social.Exec.{Statement}

-- WHERE id=$1
unfoldable pub has_id : String → ScheduledPost → Bool
has_id id p = str_eq p.id id

-- WHERE post_id=$1
unfoldable pub logs_post : String → DeliveryAttempt → Bool
logs_post id a = str_eq a.post_id id

unfoldable pub is_credential : String → CredentialRow → Bool
is_credential id c = str_eq c.id id

abbrev pub unique_failed : Error
unique_failed = database "UNIQUE constraint failed"

abbrev pub reference_failed : Error
reference_failed = database "FOREIGN KEY constraint failed"

-- INSERT INTO smeldr_social_posts
unfoldable pub insert_post_row : ScheduledPost → Statement
insert_post_row p enforce db =
    if ltb 0 (count (has_id p.id) db.posts)
    then err unique_failed
    else if enforce && count (is_credential p.credential_id) db.credentials == 0
    then err reference_failed
    else ok (record db { posts = db.posts ++ p ∷ [] }, 1)

-- The columns that the UPDATE of updatePost sets. `platform` and `credential_id` are not among them.
unfoldable pub set_mutable : ScheduledPost → Time → ScheduledPost → ScheduledPost
set_mutable p at row = record row {
  body = p.body;
  media_url = p.media_url;
  alt_text = p.alt_text;
  scheduled_at = p.scheduled_at;
  status = p.status;
  platform_post_id = p.platform_post_id;
  error_msg = p.error_msg;
  updated_at = at;
}

unfoldable pub set_published : String → Time → ScheduledPost → ScheduledPost
set_published platform_post_id at row = record row {
  status = published;
  platform_post_id = platform_post_id;
  error_msg = "";
  updated_at = at;
}

unfoldable pub set_failed : String → Time → ScheduledPost → ScheduledPost
set_failed msg at row = record row { status = failed; error_msg = msg; updated_at = at }

-- UPDATE smeldr_social_posts SET … WHERE id=$n
unfoldable pub update_post_row : String → (ScheduledPost → ScheduledPost) → Statement
update_post_row id f enforce db =
    ok (record db { posts = update (has_id id) f db.posts }, count (has_id id) db.posts)

-- DELETE FROM smeldr_social_posts WHERE id=$1
unfoldable pub delete_post_row : String → Statement
delete_post_row id enforce db =
    if enforce
      && (ltb 0 (count (has_id id) db.posts) && ltb 0 (count (logs_post id) db.delivery_log))
    then err reference_failed
    else ok (record db { posts = delete (has_id id) db.posts }, count (has_id id) db.posts)

-- DELETE FROM smeldr_social_delivery_log WHERE post_id=$1
unfoldable pub delete_log_rows : String → Statement
delete_log_rows id enforce db = ok (
  record db { delivery_log = delete (logs_post id) db.delivery_log },
  count (logs_post id) db.delivery_log,
)

unfoldable pub same_attempt : String → DeliveryAttempt → Bool
same_attempt id a = str_eq a.id id

-- INSERT INTO smeldr_social_delivery_log
unfoldable pub insert_log_row : DeliveryAttempt → Statement
insert_log_row a enforce db =
    if ltb 0 (count (same_attempt a.id) db.delivery_log)
    then err unique_failed
    else if enforce && count (has_id a.post_id) db.posts == 0
    then err reference_failed
    else ok (record db { delivery_log = db.delivery_log ++ a ∷ [] }, 1)

-- scheduled_at IS NOT NULL AND scheduled_at <= $1
unfoldable pub not_later : Time → Option Time → Bool
not_later at none = false
not_later at (some t) = leb t at

unfoldable pub is_due : Time → ScheduledPost → Bool
unfolding is_scheduled not_later
is_due at p = is_scheduled p.status && not_later at p.scheduled_at

-- ORDER BY scheduled_at ASC, on rows where it is not NULL (a NULL sorts first, as in SQLite)
unfoldable pub scheduled_first : ScheduledPost → ScheduledPost → Bool
scheduled_first p q = elim p.scheduled_at [
  | none ↦ true
  | some t ↦ elim q.scheduled_at [ none ↦ false | some u ↦ leb t u ]
]

-- ORDER BY created_at ASC
unfoldable pub created_first : ScheduledPost → ScheduledPost → Bool
created_first p q = leb p.created_at q.created_at

-- ORDER BY created_at DESC
unfoldable pub created_last : ScheduledPost → ScheduledPost → Bool
created_last p q = leb q.created_at p.created_at

-- ORDER BY scheduled_at IS NULL, scheduled_at ASC, created_at ASC
unfoldable pub soonest_first : ScheduledPost → ScheduledPost → Bool
soonest_first p q = elim p.scheduled_at [
  | none ↦ elim q.scheduled_at [ none ↦ leb p.created_at q.created_at | some u ↦ false ]
  | some t ↦ elim q.scheduled_at [
    | none ↦ true
    | some u ↦ if t == u then leb p.created_at q.created_at else ltb t u
  ]
]

-- The smaller of a candidate and a minimum so far, where NULLs do not count.
unfoldable pub min_time : Option Time → Option Time → Option Time
min_time none m = m
min_time (some t) none = some t
min_time (some t) (some u) = if leb t u then some t else some u

-- SELECT MIN(scheduled_at) … WHERE status='scheduled' AND scheduled_at IS NOT NULL
unfoldable pub min_scheduled_at : List ScheduledPost → Option Time
unfolding min_time is_scheduled
min_scheduled_at [] = none
min_scheduled_at (p ∷ ps) =
    let rest = min_scheduled_at ps in
    if is_scheduled p.status then min_time p.scheduled_at rest else rest
