-- ===== src/Post/Listing.antt =====
-- What listPosts gives.
use social.Prelude.{
  ◌≤◌, ◌<◌, true, ◌||◌, ◌==◌, Option, none, some, List, [], ◌∷◌, ◌≡◌, ◌≢◌, ◌↔◌, ◌⊎◌, inl, inr, refl,
  ap, ◌∙◌, arith, Bool-cases, Option-cases, All, Mem, here, there, mem-cons, eq_iff, str_eq,
}
use social.Model.Status.{status_text, is_scheduled, is_queued}
use social.Table.{select, mem-select}
use social.Table.Order.{
  order_by, mem-order_by, IsOrdered, IsOrder, order_by-IsOrdered, Pairwise, IsOrdered-Pairwise,
}
use social.Model.{
  ScheduledPost, PostStatus, Time, draft, scheduled, published, failed, archived, queued,
  other_status,
}
use social.Model.Errors.{ok}
use social.Exec.{Env, Sys}
use social.Post.{
  list_posts, status_in, all_forward, wanted, comparison, order_clause_for_statuses, PostOrder,
  newest_created, soonest_scheduled,
}
use social.Post.Statements.{created_last, soonest_first}

comparison-IsOrder : (o : PostOrder) → IsOrder (comparison o)
unfolding comparison created_last soonest_first
comparison-IsOrder newest_created = record {
  total = λ p q h. ground arith;
  trans = λ p q r h k. ground arith;
}
comparison-IsOrder soonest_scheduled = record {
  total = λ p q h. ground arith;
  trans = λ p q r h k. ground arith;
}

-- The post has a status of the list, or the list is empty.
abbrev pub IsWanted : List PostStatus → ScheduledPost → Type 0
IsWanted statuses p =
    (statuses ≡ []) ⊎ ((s : PostStatus) × (Mem s statuses × (status_text p.status ≡ status_text s)))

-- The order that a list of what lies ahead has: by the time, without a time behind, and then by
-- the creation.
abbrev pub SoonerTimes : (t u : Option Time) (created created' : Time) → Type 0
SoonerTimes none none c d = c ≤ d
SoonerTimes none (some u) c d = ⊥
SoonerTimes (some t) none c d = Unit
SoonerTimes (some t) (some u) c d = (t < u) ⊎ ((t ≡ u) × (c ≤ d))

abbrev pub Sooner : ScheduledPost → ScheduledPost → Type 0
Sooner p q = SoonerTimes p.scheduled_at q.scheduled_at p.created_at q.created_at

abbrev pub NotOlder : ScheduledPost → ScheduledPost → Type 0
NotOlder p q = q.created_at ≤ p.created_at

abbrev pub IsForward : PostStatus → Type 0
IsForward s = (s ≡ scheduled) ⊎ (s ≡ queued)

-- All statuses of the list lie ahead, and there are some.
abbrev pub LiesAhead : List PostStatus → Type 0
LiesAhead statuses = (statuses ≢ []) × All IsForward statuses

status_in_cases :
    (statuses : List PostStatus) (p : ScheduledPost)
    → (status_in statuses p ≡ true)
      ↔ ((s : PostStatus) × (Mem s statuses × (status_text p.status ≡ status_text s)))
unfolding status_in
status_in_cases [] p = ((λ h. absurd (cc)), (λ (s, (m, e)). elim m [ ]))
status_in_cases (s ∷ ss) p =
    let here_eq = eq_iff (status_text p.status) (status_text s) in
    let ih = status_in_cases ss p in
    (
      (λ h. elim (Bool-cases (str_eq (status_text p.status) (status_text s))) [
        | inl e ↦ (s, (here refl, here_eq.0 e))
        | inr e ↦ let (t, (m, g)) = ih.0 (rw e at h) in (t, (there m, g))
      ]),
      (λ (t, (m, e)). elim (mem-cons m) [
        | inl k ↦ let same = here_eq.1 (e ∙ ap status_text k) in rw same refl
        | inr n ↦ let rest = ih.1 (t, (n, e)) in ground arith
      ]),
    )

wanted-IsWanted :
    (statuses : List PostStatus) (p : ScheduledPost)
    → (wanted statuses p ≡ true) ↔ IsWanted statuses p
unfolding wanted
wanted-IsWanted [] p = ((λ h. inl refl), (λ h. refl))
wanted-IsWanted (s ∷ ss) p = (
  (λ h. inr ((status_in_cases (s ∷ ss) p).0 h)),
  (λ h. elim h [ inl e ↦ absurd (cc) | inr k ↦ (status_in_cases (s ∷ ss) p).1 k ]),
)

IsForward-cases : (s : PostStatus) → (is_scheduled s || is_queued s ≡ true) ↔ IsForward s
unfolding is_scheduled is_queued
IsForward-cases scheduled = ((λ h. inl refl), (λ h. refl))
IsForward-cases queued = ((λ h. inr refl), (λ h. refl))
IsForward-cases draft =
    ((λ h. absurd (cc)), (λ h. elim h [ inl e ↦ absurd (cc) | inr e ↦ absurd (cc) ]))
IsForward-cases published =
    ((λ h. absurd (cc)), (λ h. elim h [ inl e ↦ absurd (cc) | inr e ↦ absurd (cc) ]))
IsForward-cases failed =
    ((λ h. absurd (cc)), (λ h. elim h [ inl e ↦ absurd (cc) | inr e ↦ absurd (cc) ]))
IsForward-cases archived =
    ((λ h. absurd (cc)), (λ h. elim h [ inl e ↦ absurd (cc) | inr e ↦ absurd (cc) ]))
IsForward-cases (other_status v) =
    ((λ h. absurd (cc)), (λ h. elim h [ inl e ↦ absurd (cc) | inr e ↦ absurd (cc) ]))

all_forward-All :
    (statuses : List PostStatus) → (all_forward statuses ≡ true) ↔ All IsForward statuses
unfolding all_forward
all_forward-All [] = ((λ h. tt), (λ h. refl))
all_forward-All (s ∷ ss) =
    let first = IsForward-cases s in
    let ih = all_forward-All ss in
    (
      (λ h. (first.0 (ground arith), ih.0 (ground arith))),
      (λ (f, r). let e = first.1 f in let k = ih.1 r in ground arith),
    )

soonest_first-Sooner : (p q : ScheduledPost) → soonest_first p q ≡ true → Sooner p q
unfolding soonest_first
soonest_first-Sooner p q h = elim (Option-cases p.scheduled_at) [
  | inl e ↦ elim (Option-cases q.scheduled_at) [
    | inl f ↦ rw e (rw f (let k = rw f at (rw e at h) in ground arith))
    | inr (u, f) ↦ absurd (let k = rw f at (rw e at h) in cc)
  ]
  | inr (t, e) ↦ elim (Option-cases q.scheduled_at) [
    | inl f ↦ rw e (rw f tt)
    | inr (u, f) ↦ rw e (
        rw f (
          let k = rw f at (rw e at h) in
          elim (Bool-cases (t == u)) [
            | inl g ↦ inr (ground arith, let j = rw g at k in ground arith)
            | inr g ↦ inl (let j = rw g at k in ground arith)
          ]))
  ]
]

created_last-NotOlder : (p q : ScheduledPost) → created_last p q ≡ true → NotOlder p q
unfolding created_last
created_last-NotOlder p q h = ground arith

-- The order of the posts: soonest first where all statuses lie ahead, else newest first.
abbrev pub Arranged : List PostStatus → List ScheduledPost → Type 0
Arranged statuses posts =
    (LiesAhead statuses × Pairwise Sooner posts)
    ⊎ ((¬ LiesAhead statuses) × Pairwise NotOlder posts)

arranged :
    (statuses : List PostStatus) (posts : List ScheduledPost)
    → IsOrdered (comparison (order_clause_for_statuses statuses)) posts
    → Arranged statuses posts
unfolding order_clause_for_statuses comparison
arranged [] posts h =
    inr ((λ k. k.0 refl), IsOrdered-Pairwise NotOlder created_last created_last-NotOlder posts h)
arranged (s ∷ ss) posts h = elim (Bool-cases (all_forward (s ∷ ss))) [
  | inl e ↦ inl (
    ((λ k. absurd (cc)), (all_forward-All (s ∷ ss)).0 e),
    IsOrdered-Pairwise Sooner soonest_first soonest_first-Sooner posts (rw e at h),
  )
  | inr e ↦ inr (
    (λ k. absurd (let f = (all_forward-All (s ∷ ss)).1 k.1 in cc)),
    IsOrdered-Pairwise NotOlder created_last created_last-NotOlder posts (rw e at h),
  )
]

-- A list of posts holds exactly the posts of the wanted statuses, all of them when none is named.
-- Where the statuses are scheduled and queued alone, the posts stand by their time, those without
-- one last, and then by their creation; else the newest come first.
pub list_posts-exact :
    (statuses : List PostStatus) (env : Env) (s : Sys) (posts : List ScheduledPost)
    → (list_posts statuses env s).0 ≡ ok posts
    → ((p : ScheduledPost) → Mem p posts ↔ (Mem p s.db.posts × IsWanted statuses p))
      × Arranged statuses posts
unfolding list_posts
list_posts-exact statuses env s posts h = elim (Option-cases (env.db_fault s.tick)) [
  | inl f ↦
      let before = comparison (order_clause_for_statuses statuses) in
      let e : order_by before (select (wanted statuses) s.db.posts) ≡ posts = ground arith in
      rw (← e) (
        (λ p. (
          (λ m.
              let (k, w) = (mem-select _ p s.db.posts).0 ((mem-order_by before p _).0 m) in
              (k, (wanted-IsWanted statuses p).0 w)),
          (λ (k, w).
              (mem-order_by before p _).1
                ((mem-select _ p s.db.posts).1 (k, (wanted-IsWanted statuses p).1 w))),
        )),
        arranged statuses _
            (order_by-IsOrdered before (comparison-IsOrder (order_clause_for_statuses statuses)) _),
      )
  | inr (m, f) ↦ absurd (ground arith)
]
