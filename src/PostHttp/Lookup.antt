-- ===== src/PostHttp/Lookup.antt =====
-- What a POST stores, a GET answers; and without a valid token nothing happens.
use social.Prelude.{
  suc, String, true, false, ◌||◌, Option, none, some, [], ◌∷◌, ◌++◌, ◌≡◌, inl, inr, refl, ap, ◌∙◌,
  Bool-cases, eq_iff, str_eq,
}
use social.Table.{find?, count, find?-append, find?-none}
use social.Model.{ScheduledPost}
use social.Model.Errors.{Result, ok, err, unauthorized}
use social.Exec.{Env, Sys, bump}
use social.Post.{insert_post, get_post}
use social.Post.Statements.{has_id}
use social.Post.Delete.{NoFaults}
use social.PostHttp.{
  new_post, Written, wrote_error, wrote_post, PostBody, Patch, require_bearer, with_bearer,
  or_error, create_post, decoded_create, found_post, handle_post_create, handle_post_list,
  handle_post_get, handle_post_update, handle_post_delete,
}
use social.Tools.Created.{insert_post-stored, stored_result}

-- The answer to a request without a valid token, which changes nothing.
abbrev pub Unauthorized : Sys → Result Written × Sys → Type 0
Unauthorized s out = (out.0 ≡ ok (wrote_error unauthorized)) × (out.1.db ≡ s.db)

-- Without a valid token, each of the five handlers answers that the request is not authorized, and
-- leaves the tables as they are.
pub handlers-Unauthorized :
    (token id status : String) (body : Option PostBody) (patch : Option Patch) (env : Env) (s : Sys)
    → env.authorized s.tick token ≡ false
    → Unauthorized s (handle_post_create token body env s)
      × Unauthorized s (handle_post_list token status env s)
      × Unauthorized s (handle_post_get token id env s)
      × Unauthorized s (handle_post_update token id patch env s)
      × Unauthorized s (handle_post_delete token id env s)
unfolding handle_post_create handle_post_list handle_post_get handle_post_update handle_post_delete
    with_bearer require_bearer
handlers-Unauthorized token id status body patch env s refused =
    rw refused ((refl, refl), (refl, refl), (refl, refl), (refl, refl), (refl, refl))

own_id : (p : ScheduledPost) → has_id p.id p ≡ true
unfolding has_id
own_id p = (eq_iff p.id p.id).1 refl

created_row :
    (b : PostBody) (p : ScheduledPost) (env : Env) (s : Sys)
    → (create_post b env s).0 ≡ ok p
    → (create_post b env s).1.db.posts ≡ s.db.posts ++ p ∷ []
unfolding create_post
created_row b p env s h = elim (Bool-cases (str_eq b.credential_id "" || str_eq b.body "")) [
  | inl e ↦ absurd (let k = rw e at h in cc)
  | inr e ↦ rw e (
      let k = rw e at h in
      let q = new_post b (env.fresh_id (suc s.tick)) (env.clock s.tick) in
      let (r, t) = insert_post q env (bump (bump s)) in
      let (done, (same, kept)) = stored_result r q p env t k in
      ap (λ x. x.db.posts) kept
      ∙ (insert_post-stored q env (bump (bump s)) done ∙ ap (λ x. s.db.posts ++ x ∷ []) same))
]

decoded_row :
    (body : Option PostBody) (p : ScheduledPost) (env : Env) (s : Sys)
    → (decoded_create body env s).0 ≡ ok p
    → (decoded_create body env s).1.db.posts ≡ s.db.posts ++ p ∷ []
unfolding decoded_create
decoded_row none p env s h = absurd (cc)
decoded_row (some b) p env s h = created_row b p env s h

written_row :
    (r : Result ScheduledPost) (p : ScheduledPost) (env : Env) (s : Sys)
    → (or_error (wrote_post 201) r env s).0 ≡ ok (wrote_post 201 p)
    → (r ≡ ok p) × ((or_error (wrote_post 201) r env s).1 ≡ s)
unfolding or_error
written_row (ok q) p env s h = (let same : q ≡ p = cc in ap ok same, refl)
written_row (err e) p env s h = absurd (cc)

-- The post stands behind the others.
posted_row :
    (token : String) (body : Option PostBody) (p : ScheduledPost) (env : Env) (s : Sys)
    → (handle_post_create token body env s).0 ≡ ok (wrote_post 201 p)
    → (handle_post_create token body env s).1.db.posts ≡ s.db.posts ++ p ∷ []
unfolding handle_post_create with_bearer require_bearer
posted_row token body p env s h = elim (Bool-cases (env.authorized s.tick token)) [
  | inr e ↦ absurd (let k = rw e at h in cc)
  | inl e ↦ rw e (
      let k = rw e at h in
      let (r, t) = decoded_create body env (bump s) in
      let (made, kept) = written_row r p env t k in
      ap (λ x. x.db.posts) kept ∙ decoded_row body p env (bump s) made)
]

got_row :
    (token : String) (p : ScheduledPost) (env : Env) (s : Sys)
    → NoFaults env
    → env.authorized s.tick token ≡ true
    → str_eq p.id "" ≡ false
    → find? (has_id p.id) s.db.posts ≡ some p
    → (handle_post_get token p.id env s).0 ≡ ok (wrote_post 200 p)
unfolding handle_post_get with_bearer require_bearer found_post get_post or_error
got_row token p env s nf a i e = rw a (rw i (rw (nf (suc s.tick)) (rw e refl)))

-- A post that a POST has created is what a GET of its identifier answers, if both tokens are valid,
-- the identifier is not empty and was not in use, and the database has no faults.
pub handle_post_get-create :
    (token token' : String) (body : Option PostBody) (p : ScheduledPost) (env : Env) (s : Sys)
    → NoFaults env
    → (handle_post_create token body env s).0 ≡ ok (wrote_post 201 p)
    → env.authorized (handle_post_create token body env s).1.tick token' ≡ true
    → str_eq p.id "" ≡ false
    → count (has_id p.id) s.db.posts ≡ 0
    → (handle_post_get token' p.id env (handle_post_create token body env s).1).0
      ≡ ok (wrote_post 200 p)
handle_post_get-create token token' body p env s nf h a i new =
    let t : Sys = (handle_post_create token body env s).1 in
    let own : has_id p.id p ≡ true = own_id p in
    let found : find? (has_id p.id) t.db.posts ≡ some p = rw (posted_row token body p env s h) (
      find?-append (has_id p.id) s.db.posts p
      ∙ rw (find?-none (has_id p.id) s.db.posts new) (rw own refl)) in
    got_row token' p env t nf a i found
