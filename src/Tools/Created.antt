-- ===== src/Tools/Created.antt =====
-- What mcp_create stores.
use social.Prelude.{true, false, none, List, [], ◌∷◌, ◌++◌, ◌≡◌, refl, arith, str_eq}
use social.Model.{ScheduledPost}
use social.Model.Status.{is_settable, is_draft}
use social.Model.Errors.{Result, ok, err}
use social.Exec.{Env, Sys, M, and_then, pure}
use social.Post.{insert_post}
use social.Post.Statements.{insert_post_row}
use social.Tools.{lacks_alt_text}

-- A step that leaves the posts as they are, and what its value is like if it returns.
record Leads (base : List ScheduledPost) {A : Type 0} (P : A → Type 0) (m : M A) : Type 0 where
  at :
      (env : Env) (s : Sys) (a : A)
      → s.db.posts ≡ base
      → (m env s).0 ≡ ok a
      → P a × ((m env s).1.db.posts ≡ base)

-- A method that stores the post that it returns, and what that is like.
record Creates (base : List ScheduledPost) (Q : ScheduledPost → Type 0) (m : M ScheduledPost)
    : Type 0 where
  at :
      (env : Env) (s : Sys) (p : ScheduledPost)
      → s.db.posts ≡ base
      → (m env s).0 ≡ ok p
      → Q p × ((m env s).1.db.posts ≡ base ++ p ∷ [])

pub insert_post-stored :
    (p : ScheduledPost) (env : Env) (s : Sys)
    → (insert_post p env s).0 ≡ ok tt
    → (insert_post p env s).1.db.posts ≡ s.db.posts ++ p ∷ []
unfolding insert_post insert_post_row
insert_post-stored p env s h = ground arith

-- What holds of a post that the tools create.
pub record IsCreated (p : ScheduledPost) : Type 0 where
  pub addressed : str_eq p.credential_id "" ≡ false
  pub written : str_eq p.body "" ≡ false
  pub described : lacks_alt_text p.media_url p.alt_text ≡ false
  pub settable : is_settable p.status ≡ true
  pub timed : is_draft p.status ≡ true → p.scheduled_at ≡ none

pub stored_result :
    (r : Result (Unit {0})) (p q : ScheduledPost) (env : Env) (s : Sys)
    → (and_then r (λ _. pure p) env s).0 ≡ ok q
    → (r ≡ ok tt) × ((p ≡ q) × ((and_then r (λ _. pure p) env s).1 ≡ s))
stored_result (ok u) p q env s h = (refl, (cc, refl))
stored_result (err e) p q env s h = absurd (cc)
