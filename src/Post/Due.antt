-- ===== src/Post/Due.antt =====
-- duePosts and nextScheduledAt: what is due, in which order, and how long the scheduler sleeps.
use social.Prelude.{
  suc, ◌≤◌, true, leb, Option, none, some, List, [], ◌∷◌, ◌≡◌, ◌↔◌, inl, inr, refl, sym, ap, ◌∙◌,
  arith, Bool-cases, Option-cases, Mem, here, there,
}
use social.Table.{select, mem-select}
use social.Table.Order.{
  order_by, mem-order_by, IsOrder, order_by-IsOrdered, Pairwise, IsOrdered-Pairwise,
}
use social.Model.{Time, ScheduledPost, PostStatus, scheduled}
use social.Model.Status.{is_scheduled}
use social.Model.Errors.{ok}
use social.Exec.{Env, Sys}
use social.Post.{due_posts}
use social.Post.Statements.{is_due, not_later, scheduled_first, min_scheduled_at, min_time}

scheduled_first-IsOrder : IsOrder scheduled_first
unfolding scheduled_first
scheduled_first-IsOrder = record { total = λ p q. ground arith; trans = λ p q r h k. ground arith }

-- The post is scheduled for a time that has come.
abbrev pub IsDue : Time → ScheduledPost → Type 0
IsDue now p = (p.status ≡ scheduled) × ((t : Time) × ((p.scheduled_at ≡ some t) × (t ≤ now)))

-- The time of the one is not behind the time of the other.
abbrev pub NotLater : ScheduledPost → ScheduledPost → Type 0
NotLater p q = (t u : Time) → p.scheduled_at ≡ some t → q.scheduled_at ≡ some u → t ≤ u

is_scheduled-eq : (s : PostStatus) → is_scheduled s ≡ true → s ≡ scheduled
unfolding is_scheduled
is_scheduled-eq s h = ground arith

not_later_at :
    (now : Time) (o : Option Time)
    → not_later now o ≡ true
    → (t : Time) × ((o ≡ some t) × (t ≤ now))
unfolding not_later
not_later_at now none h = absurd (cc)
not_later_at now (some t) h = (t, (refl, ground arith))

pub is_due-IsDue : (now : Time) (p : ScheduledPost) → (is_due now p ≡ true) ↔ IsDue now p
unfolding is_due is_scheduled not_later
is_due-IsDue now p = (
  (λ h. (is_scheduled-eq p.status (ground arith), not_later_at now p.scheduled_at (ground arith))),
  (λ (d, (t, (e, le))). rw d (rw e (ground arith))),
)

scheduled_first-NotLater : (p q : ScheduledPost) → scheduled_first p q ≡ true → NotLater p q
unfolding scheduled_first
scheduled_first-NotLater p q h t u e f = let k = rw f at (rw e at h) in ground arith

-- The answer of duePosts at an instant holds exactly the posts that are scheduled for that instant
-- or before, and no post stands before one of an earlier time.
pub due_posts-exact :
    (env : Env) (s : Sys) (posts : List ScheduledPost)
    → (due_posts env s).0 ≡ ok posts
    → ((p : ScheduledPost) → Mem p posts ↔ (Mem p s.db.posts × IsDue (env.clock s.tick) p))
      × Pairwise NotLater posts
unfolding due_posts
due_posts-exact env s posts h = elim (Option-cases (env.db_fault (suc s.tick))) [
  | inl f ↦
      let e : order_by scheduled_first (select (is_due (env.clock s.tick)) s.db.posts) ≡ posts =
        ground arith in
      rw (← e) (
        (λ p. (
          (λ m.
              let (k, due) =
                (mem-select _ p s.db.posts).0 ((mem-order_by scheduled_first p _).0 m) in
              (k, (is_due-IsDue _ p).0 due)),
          (λ (k, due).
              (mem-order_by scheduled_first p _).1
                ((mem-select _ p s.db.posts).1 (k, (is_due-IsDue _ p).1 due))),
        )),
        IsOrdered-Pairwise NotLater scheduled_first scheduled_first-NotLater _
            (order_by-IsOrdered scheduled_first scheduled_first-IsOrder _),
      )
  | inr (m, f) ↦ absurd (ground arith)
]

-- Whether a time is the time of some scheduled post.
abbrev pub IsScheduledAt : Time → ScheduledPost → Type 0
IsScheduledAt t p = (is_scheduled p.status ≡ true) × (p.scheduled_at ≡ some t)

-- A minimum that exists and is no later than the time.
abbrev pub NotAfter : Time → Option Time → Type 0
NotAfter t none = ⊥
NotAfter t (some u) = u ≤ t

min_time-left : (t : Time) (m : Option Time) → NotAfter t (min_time (some t) m)
unfolding min_time
min_time-left t none = omega arith
min_time-left t (some u) = elim (Bool-cases (leb t u)) [
  | inl e ↦ rw e (omega arith)
  | inr e ↦ rw e (ground arith)
]

min_time-right : (t : Time) (o m : Option Time) → NotAfter t m → NotAfter t (min_time o m)
unfolding min_time
min_time-right t none m h = h
min_time-right t (some v) none h = absurd h
min_time-right t (some v) (some u) h = elim (Bool-cases (leb v u)) [
  | inl e ↦ rw e (ground arith)
  | inr e ↦ rw e h
]

-- MIN(scheduled_at) is no later than any scheduled post.
pub min_scheduled_at-NotAfter :
    (posts : List ScheduledPost) (p : ScheduledPost) (t : Time)
    → Mem p posts
    → IsScheduledAt t p
    → NotAfter t (min_scheduled_at posts)
unfolding min_scheduled_at
min_scheduled_at-NotAfter [] p t m h = elim m [ ]
min_scheduled_at-NotAfter (q ∷ qs) p t (here e) h =
    rw (ap is_scheduled (ap (λ r. r.status) (sym e)) ∙ h.0)
      (rw (ap (λ r. r.scheduled_at) (sym e) ∙ h.1) (min_time-left t (min_scheduled_at qs)))
min_scheduled_at-NotAfter (q ∷ qs) p t (there m) h =
    let ih = min_scheduled_at-NotAfter qs p t m h in
    elim (Bool-cases (is_scheduled q.status)) [
      | inl e ↦ rw e (min_time-right t q.scheduled_at (min_scheduled_at qs) ih)
      | inr e ↦ rw e ih
    ]
