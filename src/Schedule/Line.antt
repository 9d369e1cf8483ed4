-- ===== src/Schedule/Line.antt =====
-- The queue of a credential: dequeueOldestQueued takes the post that waits longest.
use social.Prelude.{
  ◌≤◌, String, true, some, List, [], ◌∷◌, ◌≡◌, ◌↔◌, eq_iff, inl, inr, sym, ap, arith, All-mem, Mem,
  here, mem-cons, tests,
}
use social.Table.{select, mem-select}
use social.Table.Order.{order_by, mem-order_by, IsOrdered, IsOrder, order_by-IsOrdered}
use social.Model.{ScheduledPost, PostStatus, queued}
use social.Model.Status.{is_queued}
use social.Credential.{uses_credential}
use social.Model.Errors.{ok}
use social.Exec.{Env, Sys}
use social.Post.Statements.{created_first}
use social.Schedule.{waits_for, first_row, dequeue_oldest_queued}

pub created_first-IsOrder : IsOrder created_first
unfolding created_first
created_first-IsOrder = record { total = λ p q h. ground arith; trans = λ p q r h k. ground arith }

first_row-mem :
    (rows : List ScheduledPost) (p : ScheduledPost) → first_row rows ≡ some p → Mem p rows
first_row-mem [] p e = absurd (cc)
first_row-mem (x ∷ xs) p e = here (sym (cc))

-- The first row of an ordered list comes before all others.
first_row-before :
    (rows : List ScheduledPost) (p q : ScheduledPost)
    → first_row rows ≡ some p
    → IsOrdered created_first rows
    → Mem q rows
    → p.created_at ≤ q.created_at
unfolding created_first
first_row-before [] p q e o m = elim m [ ]
first_row-before (x ∷ xs) p q e o m =
    let same : x ≡ p = cc in
    let t = ap (λ y. y.created_at) same in
    elim (mem-cons m) [
      | inl k ↦ let u = ap (λ y. y.created_at) k in omega (arith, t, u)
      | inr k ↦ let b = All-mem (λ y. created_first x y ≡ true) xs o.0 k in grind (tests, t, b)
    ]

-- The post is queued for the credential.
abbrev pub IsQueuedFor : String → ScheduledPost → Type 0
IsQueuedFor id p = (p.credential_id ≡ id) × (p.status ≡ queued)

is_queued-eq : (s : PostStatus) → is_queued s ≡ true → s ≡ queued
unfolding is_queued
is_queued-eq s h = ground arith

waits_for-IsQueuedFor :
    (id : String) (p : ScheduledPost) → (waits_for id p ≡ true) ↔ IsQueuedFor id p
unfolding waits_for uses_credential is_queued
waits_for-IsQueuedFor id p = (
  (λ h. ((eq_iff p.credential_id id).0 (ground arith), is_queued-eq p.status (ground arith))),
  (λ (c, q). let same = (eq_iff p.credential_id id).1 c in rw q (ground arith)),
)

-- The post that dequeueOldestQueued gives is queued for the credential, and no queued post of the
-- credential was created before it.
pub dequeue_oldest_queued-first :
    (id : String) (env : Env) (s : Sys) (p : ScheduledPost)
    → (dequeue_oldest_queued id env s).0 ≡ ok p
    → (Mem p s.db.posts × IsQueuedFor id p)
      × ((q : ScheduledPost) → Mem q s.db.posts → IsQueuedFor id q → p.created_at ≤ q.created_at)
unfolding dequeue_oldest_queued
dequeue_oldest_queued-first id env s p h =
    let chosen = select (waits_for id) s.db.posts in
    let rows = order_by created_first chosen in
    let first : first_row rows ≡ some p = ground arith in
    let ordered = order_by-IsOrdered created_first created_first-IsOrder chosen in
    (
      let (m, w) =
            (mem-select (waits_for id) p s.db.posts).0
              ((mem-order_by created_first p chosen).0 (first_row-mem rows p first)) in
          (m, (waits_for-IsQueuedFor id p).0 w),
      (λ q m w. first_row-before rows p q first ordered (
          (mem-order_by created_first q chosen).1
            ((mem-select (waits_for id) q s.db.posts).1 (m, (waits_for-IsQueuedFor id q).1 w)))),
    )
