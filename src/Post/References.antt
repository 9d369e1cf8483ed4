-- ===== src/Post/References.antt =====
-- The references between the tables: each operation of post.go keeps them where the database
-- enforces them.
use social.Prelude.{
  ◌&&◌, refl, All-map₂, eq_iff, false, ◌<◌, String, Bool, true, ltb, ◌==◌, List, [], ◌∷◌, ◌++◌, ◌≡◌,
  ap, arith, Bool-cases, inl, inr, All, All-append, All-map, str_eq,
}
use social.Table.{
  delete, count, count-append, count-update, update, All-update, All-delete, count-delete_other,
  All-count_zero, delete_none,
}
use social.Model.{Time, ScheduledPost, DeliveryAttempt, Db}
use social.Exec.Keeps.{StatementKeeps}
use social.Post.Statements.{
  delete_post_row, has_id, logs_post, is_credential, insert_post_row, update_post_row,
  delete_log_rows, insert_log_row, same_attempt, set_mutable, set_published, set_failed,
}

-- Every post names a credential that exists, and every attempt a post that exists.
pub record References (db : Db) : Type 0 where
  pub posts : All (λ p. 0 < count (is_credential p.credential_id) db.credentials) db.posts
  pub attempts : All (λ a. 0 < count (has_id a.post_id) db.posts) db.delivery_log

more_posts :
    (p : ScheduledPost) (posts : List ScheduledPost) (log : List DeliveryAttempt)
    → All (λ a. 0 < count (has_id a.post_id) posts) log
    → All (λ a. 0 < count (has_id a.post_id) (posts ++ p ∷ [])) log
more_posts p posts log =
    All-map (λ a h. omega (arith, count-append (has_id a.post_id) posts (p ∷ []))) log

pub insert_post_row-References :
    (p : ScheduledPost) → StatementKeeps References true (insert_post_row p)
unfolding insert_post_row
insert_post_row-References p db r = elim (Bool-cases (ltb 0 (count (has_id p.id) db.posts))) [
  | inl e ↦ rw e tt
  | inr e ↦ rw e (elim (Bool-cases (count (is_credential p.credential_id) db.credentials == 0)) [
    | inl f ↦ rw f tt
    | inr f ↦ rw f (record {
      posts =
          All-append (λ q. 0 < count (is_credential q.credential_id) db.credentials) db.posts
            (p ∷ []) r.posts (ground arith, tt);
      attempts = more_posts p db.posts db.delivery_log r.attempts;
    })
  ])
]

-- An update that leaves the keys of the row alone.
pub record KeepsKeys (f : ScheduledPost → ScheduledPost) : Type 0 where
  pub same_id : (p : ScheduledPost) → (f p).id ≡ p.id
  pub same_credential : (p : ScheduledPost) → (f p).credential_id ≡ p.credential_id

has_id_of_same : (id : String) (p q : ScheduledPost) → q.id ≡ p.id → has_id id q ≡ has_id id p
unfolding has_id
has_id_of_same id p q e = ap (λ k. str_eq k id) e

pub update_post_row-References :
    (id : String) (f : ScheduledPost → ScheduledPost)
    → KeepsKeys f
    → (enforce : Bool) → StatementKeeps References enforce (update_post_row id f)
unfolding update_post_row
update_post_row-References id f k enforce db r = record {
  posts =
      All-update (λ p. 0 < count (is_credential p.credential_id) db.credentials) (has_id id) f
        db.posts (λ p t h. rw (k.same_credential p) h) r.posts;
  attempts =
      All-map {A = DeliveryAttempt} {P = λ a. 0 < count (has_id a.post_id) db.posts}
        {Q = λ a. 0 < count (has_id a.post_id) (update (has_id id) f db.posts)}
        (λ a h.
          rw
            (count-update (has_id id) (has_id a.post_id) f db.posts
              (λ p t. has_id_of_same a.post_id p (f p) (k.same_id p)))
            h)
        db.delivery_log r.attempts;
}

pub insert_log_row-References :
    (a : DeliveryAttempt) → StatementKeeps References true (insert_log_row a)
unfolding insert_log_row
insert_log_row-References a db r =
    elim (Bool-cases (ltb 0 (count (same_attempt a.id) db.delivery_log))) [
      | inl e ↦ rw e tt
      | inr e ↦ rw e (elim (Bool-cases (count (has_id a.post_id) db.posts == 0)) [
        | inl f ↦ rw f tt
        | inr f ↦ rw f (record {
          posts = r.posts;
          attempts =
              All-append (λ b. 0 < count (has_id b.post_id) db.posts) db.delivery_log (a ∷ [])
                r.attempts (ground arith, tt);
        })
      ])
    ]

pub delete_log_rows-References :
    (id : String) (enforce : Bool) → StatementKeeps References enforce (delete_log_rows id)
unfolding delete_log_rows
delete_log_rows-References id enforce db r = record {
  posts = r.posts;
  attempts =
      All-delete (λ b. 0 < count (has_id b.post_id) db.posts) (logs_post id) db.delivery_log
        r.attempts;
}

no_clash :
    (id : String) (a : DeliveryAttempt) (p : ScheduledPost)
    → logs_post id a ≡ false
    → has_id id p ≡ true
    → has_id a.post_id p ≡ false
unfolding has_id logs_post
no_clash id a p f t = ground (arith, eq_iff p.id id, eq_iff a.post_id id, eq_iff p.id a.post_id)

-- The foreign key of the log lets a post go only when no attempt names it.
pub delete_post_row-References : (id : String) → StatementKeeps References true (delete_post_row id)
unfolding delete_post_row
delete_post_row-References id db r =
    elim (Bool-cases
      (ltb 0 (count (has_id id) db.posts) && ltb 0 (count (logs_post id) db.delivery_log))) [
        | inl e ↦ rw e tt
        | inr e ↦ rw e (elim (Bool-cases (count (has_id id) db.posts == 0)) [
          | inl none_there ↦ rw (delete_none (has_id id) db.posts (ground arith)) r
          | inr some_there ↦ record {
            posts =
                All-delete (λ p. 0 < count (is_credential p.credential_id) db.credentials)
                  (has_id id) db.posts r.posts;
            attempts = survivors (All-count_zero (logs_post id) db.delivery_log (ground arith));
          }
        ])
      ]
  where
    survivors :
        All (λ a. logs_post id a ≡ false) db.delivery_log
        → All (λ a. 0 < count (has_id a.post_id) (delete (has_id id) db.posts)) db.delivery_log
    survivors unlogged =
        All-map₂ {P = λ a. 0 < count (has_id a.post_id) db.posts} {Q = λ a. logs_post id a ≡ false}
          {R = λ a. 0 < count (has_id a.post_id) (delete (has_id id) db.posts)}
          (λ a h f.
            rw (count-delete_other (has_id id) (has_id a.post_id) db.posts (λ p. no_clash id a p f))
              h)
          db.delivery_log r.attempts unlogged

pub KeepsKeys-set_mutable : (p : ScheduledPost) (at : Time) → KeepsKeys (set_mutable p at)
unfolding set_mutable
KeepsKeys-set_mutable p at = record { same_id = λ q. refl; same_credential = λ q. refl }

pub KeepsKeys-set_published : (id : String) (at : Time) → KeepsKeys (set_published id at)
unfolding set_published
KeepsKeys-set_published id at = record { same_id = λ q. refl; same_credential = λ q. refl }

pub KeepsKeys-set_failed : (msg : String) (at : Time) → KeepsKeys (set_failed msg at)
unfolding set_failed
KeepsKeys-set_failed msg at = record { same_id = λ q. refl; same_credential = λ q. refl }
