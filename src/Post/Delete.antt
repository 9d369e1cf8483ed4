-- ===== src/Post/Delete.antt =====
-- deletePost: it is atomic where transactions are, and never blocked by the delivery log.
use social.Prelude.{
  inr, inl, Bool-cases, ℕ, suc, String, true, ◌==◌, if◌then◌else◌, none, ◌≡◌, arith,
}
use social.Table.{count, delete, count-delete}
use social.Model.{Db}
use social.Model.Errors.{Error, not_found, ok, err}
use social.Exec.{Env, Sys}
use social.Post.{delete_post}
use social.Post.Statements.{has_id, logs_post, delete_post_row, delete_log_rows}

-- No call of the database fails.
abbrev pub NoFaults : Env → Type 0
NoFaults env = (k : ℕ) → env.db_fault k ≡ none

-- The tables without a post and without its delivery log.
abbrev pub without_post : String → Db → Db
without_post id db = record db {
  posts = delete (has_id id) db.posts;
  delivery_log = delete (logs_post id) db.delivery_log;
}

-- In a transaction, an error of deletePost leaves the tables as they were.
pub delete_post_atomic :
    (id : String) (env : Env) (s : Sys) (e : Error)
    → env.transactions ≡ true
    → (delete_post id env s).0 ≡ err e
    → (delete_post id env s).1.db ≡ s.db
unfolding delete_post
delete_post_atomic id env s e t h = ground arith

delete_post-ok :
    (id : String) (env : Env) (s : Sys)
    → (delete_post id env s).0 ≡ ok tt
    → (delete_post id env s).1.db ≡ without_post id s.db
unfolding delete_post delete_post_row delete_log_rows
delete_post-ok id env s h = ground arith

delete_post-result :
    (id : String) (env : Env) (s : Sys)
    → NoFaults env
    → (delete_post id env s).0
      ≡ (if count (has_id id) s.db.posts == 0 then err not_found else ok tt)
unfolding delete_post delete_post_row delete_log_rows
delete_post-result id env s nf = ground (
  arith,
  count-delete (logs_post id) s.db.delivery_log,
  nf s.tick,
  nf (suc s.tick),
  nf (suc (suc s.tick)),
  nf (suc (suc (suc s.tick))),
)

-- In a transaction and without database faults, deletePost of a post that exists succeeds and
-- removes the post with its delivery log and nothing else, whether or not references are enforced;
-- of another identifier it is not found, and changes nothing.
pub delete_post-exact :
    (id : String) (env : Env) (s : Sys)
    → env.transactions ≡ true
    → NoFaults env
    → ((delete_post id env s).0
        ≡ (if count (has_id id) s.db.posts == 0 then err not_found else ok tt))
      × ((delete_post id env s).1.db
          ≡ (if count (has_id id) s.db.posts == 0 then s.db else without_post id s.db))
delete_post-exact id env s t nf =
    let result = delete_post-result id env s nf in
    elim (Bool-cases (count (has_id id) s.db.posts == 0)) [
      | inl e ↦
          let failed : (delete_post id env s).0 ≡ err not_found = ground arith in
          (result, rw e (delete_post_atomic id env s not_found t failed))
      | inr e ↦
          let done : (delete_post id env s).0 ≡ ok tt = ground arith in
          (result, rw e (delete_post-ok id env s done))
    ]
