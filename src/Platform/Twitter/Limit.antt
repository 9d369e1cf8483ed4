-- ===== src/Platform/Twitter/Limit.antt =====
-- The weighted length of a body on X, and what it keeps from being sent.
use social.Prelude.{
  lt→ltb, ℕ, zero, suc, ◌+◌, ◌-◌, ◌≤◌, ◌<◌, String, ◌==◌, Option, none, some, List, [], ◌∷◌, ◌≡◌,
  inl, inr, refl, ap, ◌∙◌, arith, Bool-cases, Option-cases, length,
}
use social.Model.{ScheduledPost, PlatformCredential}
use social.Model.Http.{ClientConfig}
use social.Model.Errors.{err}
use social.Exec.{Env, Sys}
use social.Platform.Text.{runes}
use social.Platform.Twitter.{publish, too_long}
use social.Platform.Twitter.Weight.{
  run_length, match_tail, match_secure, match_url, find_urls, reweigh, x_weighted_body_len,
  x_tco_url_len,
}

-- Each URL counts 23 characters, and each character outside of a URL counts one.
unfoldable pub weigh : ℕ → List ℕ → ℕ
weigh skip [] = 0
weigh (suc skip) (c ∷ cs) = weigh skip cs
weigh zero (c ∷ cs) = elim (match_url (c ∷ cs)) [
  | none ↦ 1 + weigh zero cs
  | some n ↦ 23 + weigh (n - 1) cs
]

run_length_le : (cs : List ℕ) → run_length cs ≤ length cs
unfolding run_length
run_length_le [] = omega arith
run_length_le (c ∷ cs) = ground (arith, run_length_le cs)

-- The length of a match: at least one character, and no more than there are.
abbrev Fits : List ℕ → Option ℕ → Type 0
Fits cs o = (n : ℕ) → o ≡ some n → (1 ≤ n) × (n ≤ length cs)

match_tail-Fits : (cs : List ℕ) → Fits cs (match_tail cs)
unfolding match_tail
match_tail-Fits [] n e = absurd (cc)
match_tail-Fits (c ∷ []) n e = absurd (cc)
match_tail-Fits (c ∷ d ∷ []) n e = absurd (cc)
match_tail-Fits (c ∷ d ∷ f ∷ cs) n e =
    let h = run_length_le cs in (ground (arith, h), ground (arith, h))

match_secure-Fits : (cs : List ℕ) → Fits cs (match_secure cs)
unfolding match_secure
match_secure-Fits [] n e = absurd (cc)
match_secure-Fits (c ∷ cs) n e = elim (Bool-cases (c == b's')) [
  | inl b ↦ elim (Option-cases (match_tail cs)) [
    | inl f ↦ absurd (ground (arith, e, f, b))
    | inr (k, f) ↦
        let (h, g) = match_tail-Fits cs k f in
        (ground (arith, e, f, b, g), ground (arith, e, f, b, g))
  ]
  | inr b ↦ match_tail-Fits (c ∷ cs) n (let e' = rw b at e in e')
]

match_url-Fits : (cs : List ℕ) → Fits cs (match_url cs)
unfolding match_url
match_url-Fits [] n e = absurd (cc)
match_url-Fits (a ∷ []) n e = absurd (cc)
match_url-Fits (a ∷ b ∷ []) n e = absurd (cc)
match_url-Fits (a ∷ b ∷ c ∷ []) n e = absurd (cc)
match_url-Fits (a ∷ b ∷ c ∷ d ∷ cs) n e = elim (Option-cases (match_secure cs)) [
  | inl f ↦ absurd (ground (arith, e, f))
  | inr (k, f) ↦
      let (h, g) = match_secure-Fits cs k f in (ground (arith, f, g), ground (arith, f, g))
]

reweigh-find_urls :
    (t u k : ℕ) (cs : List ℕ)
    → k ≤ length cs
    → u + k ≡ t + length cs
    → reweigh u (find_urls k cs) ≡ t + weigh k cs
unfolding reweigh find_urls weigh
reweigh-find_urls t u zero [] h e = omega arith
reweigh-find_urls t u (suc k) [] h e = absurd (omega arith)
reweigh-find_urls t u (suc k) (c ∷ cs) h e = reweigh-find_urls t u k cs (omega arith) (omega arith)
reweigh-find_urls t u zero (c ∷ cs) h e = elim (Option-cases (match_url (c ∷ cs))) [
  | inl f ↦
      let r = reweigh-find_urls (t + 1) u zero cs (omega arith) (omega arith) in
      let a : find_urls zero (c ∷ cs) ≡ find_urls zero cs = ground (arith, f) in
      let b : weigh zero (c ∷ cs) ≡ 1 + weigh zero cs = ground (arith, f) in
      ap (reweigh u) a ∙ (r ∙ omega (arith, b))
  | inr (n, f) ↦
      let (low, high) = match_url-Fits (c ∷ cs) n f in
      let r =
        reweigh-find_urls (t + 23) (u + x_tco_url_len - n) (n - 1) cs (omega arith) (omega arith) in
      let a : find_urls zero (c ∷ cs) ≡ n ∷ find_urls (n - 1) cs = ground (arith, f) in
      let b : weigh zero (c ∷ cs) ≡ 23 + weigh (n - 1) cs = ground (arith, f) in
      ap (reweigh u) a ∙ (r ∙ omega (arith, b))
]

-- The weighted length of a body is 23 for each of its URLs, and one for each other character.
pub x_weighted_body_len-weigh : (body : String) → x_weighted_body_len body ≡ weigh 0 (runes body)
unfolding x_weighted_body_len
x_weighted_body_len-weigh body =
    reweigh-find_urls 0 (length (runes body)) 0 (runes body) (omega arith) (omega arith)
    ∙ omega arith

-- A body whose weight is above 280 is refused without a request: nothing changes, and the error is
-- terminal.
pub publish-too_long :
    (cfg : ClientConfig) (p : ScheduledPost) (cred : PlatformCredential) (env : Env) (s : Sys)
    → 280 < weigh 0 (runes p.body)
    → publish cfg p cred env s ≡ (err (too_long (weigh 0 (runes p.body))), s)
unfolding publish
publish-too_long cfg p cred env s h =
    let e = x_weighted_body_len-weigh p.body in
    rw e (rw (lt→ltb 280 (weigh 0 (runes p.body)) h) refl)
