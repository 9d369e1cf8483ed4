-- ===== src/Oauth/State.antt =====
-- A state token of oauth.go is used at most once, and within its ten minutes.
use social.Prelude.{
  suc, ◌+◌, ◌-◌, ◌≤◌, String, true, not, ◌≡◌, ◌↔◌, inl, inr, refl, arith, Option-cases, Mem, eq_iff,
  str_eq, tests,
}
use social.Table.{
  delete-select, mem-select, find?, count, delete, count-delete, find?-none, find?-mem, count-none,
  find?-holds, find?-append,
}
use social.Model.{Time, OauthState, Platform}
use social.Model.Errors.{ok, err}
use social.Exec.{Env, Sys, ◌>>◌}
use social.Post.Delete.{NoFaults}
use social.Oauth.{
  is_state, insert_state_row, delete_states, insert_oauth_state, consume_row, consume_oauth_state,
  unknown_state, oauth_state_ttl, purge_expired_oauth_states, created_before,
}

-- The tokens that are left after one is consumed, whether or not it is accepted.
consumed_states :
    (state : String) (env : Env) (s : Sys)
    → NoFaults env
    → count (is_state state) (consume_oauth_state state env s).1.db.oauth_states ≡ 0
unfolding consume_oauth_state consume_row delete_states
consumed_states state env s nf = ground (
  arith,
  count-delete (is_state state) s.db.oauth_states,
  count-none (is_state state) s.db.oauth_states,
  nf s.tick,
  nf (suc s.tick),
)

consume_none :
    (state : String) (env : Env) (s : Sys)
    → NoFaults env
    → count (is_state state) s.db.oauth_states ≡ 0
    → (consume_oauth_state state env s).0 ≡ err unknown_state
unfolding consume_oauth_state consume_row
consume_none state env s nf h =
    rw (nf s.tick) (rw (find?-none (is_state state) s.db.oauth_states h) refl)

-- A state token is accepted at most once: without database faults, a second consumption in a row is
-- refused as unknown, whether the first was accepted or not.
pub consume_oauth_state-once :
    (state : String) (env : Env) (s : Sys)
    → NoFaults env
    → (consume_oauth_state state env (consume_oauth_state state env s).1).0 ≡ err unknown_state
consume_oauth_state-once state env s nf =
    consume_none state env (consume_oauth_state state env s).1 nf (consumed_states state env s nf)

-- The row that an accepted token stands for: it is in the table, and no older than its time to live
-- at some reading of the clock.
pub record Vouches (state : String) (result : Platform × String) (at : Time) (o : OauthState)
    : Type 0 where
  pub same : str_eq o.state state ≡ true
  pub platform : result.0 ≡ o.platform
  pub verifier : result.1 ≡ o.code_verifier
  pub fresh : at ≤ o.created_at + oauth_state_ttl

-- A token that is accepted was stored, with the platform and the verifier that are returned, and at
-- the moment of the check it is no older than its time to live.
pub consume_oauth_state-Vouches :
    (state : String) (env : Env) (s : Sys) (result : Platform × String)
    → (consume_oauth_state state env s).0 ≡ ok result
    → (o : OauthState) × (Mem o s.db.oauth_states
        × Vouches state result (env.clock (suc (suc s.tick))) o)
unfolding consume_oauth_state consume_row delete_states is_state
consume_oauth_state-Vouches state env s result h =
    elim (Option-cases (find? (is_state state) s.db.oauth_states)) [
      | inl e ↦ absurd (ground (arith, e))
      | inr (o, e) ↦ (
        o,
        (
          find?-mem (is_state state) s.db.oauth_states o e,
          record {
            same = find?-holds (is_state state) s.db.oauth_states o e;
            platform = ground (arith, e);
            verifier = ground (arith, e);
            fresh = ground (arith, e);
          },
        ),
      )
    ]

-- A token that is stored and then consumed gives back its platform and its verifier, if the clock
-- has not passed its time to live, the token is new and the database has no faults.
pub consume-insert :
    (state : String) (platform : Platform) (verifier : String) (env : Env) (s : Sys)
    → NoFaults env
    → count (is_state state) s.db.oauth_states ≡ 0
    → env.clock (suc (suc (suc (suc s.tick)))) ≤ env.clock s.tick + oauth_state_ttl
    → ((insert_oauth_state state platform verifier >> consume_oauth_state state) env s).0
      ≡ ok (platform, verifier)
unfolding insert_oauth_state insert_state_row consume_oauth_state consume_row delete_states is_state
consume-insert state platform verifier env s nf new h =
    let row : OauthState = record {
      state = state;
      platform = platform;
      code_verifier = verifier;
      created_at = env.clock s.tick;
    } in
    let found = find?-append (is_state state) s.db.oauth_states row in
    let old = find?-none (is_state state) s.db.oauth_states new in
    let own : is_state state row ≡ true = (eq_iff state state).1 refl in
    ground
      (arith, nf (suc s.tick), nf (suc (suc s.tick)), nf (suc (suc (suc s.tick))), found, old, own)

-- A purge that succeeds drops exactly the tokens that were created more than their time to live
-- before the purge.
pub purge_expired_oauth_states-exact :
    (env : Env) (s : Sys) (o : OauthState)
    → (purge_expired_oauth_states env s).0 ≡ ok tt
    → Mem o (purge_expired_oauth_states env s).1.db.oauth_states
      ↔ (Mem o s.db.oauth_states × (env.clock s.tick ≤ o.created_at + oauth_state_ttl))
unfolding purge_expired_oauth_states delete_states created_before
purge_expired_oauth_states-exact env s o h =
    let cutoff = env.clock s.tick - oauth_state_ttl in
    let test = created_before cutoff in
    let left : (purge_expired_oauth_states env s).1.db.oauth_states
        ≡ delete test s.db.oauth_states =
      ground (arith, h) in
    let kept = mem-select (λ x. not (test x)) o s.db.oauth_states in
    let back : env.clock s.tick ≤ o.created_at + oauth_state_ttl → not (test o) ≡ true =
      λ k. grind tests in
    let forth : not (test o) ≡ true → env.clock s.tick ≤ o.created_at + oauth_state_ttl =
      λ k. grind tests in
    rw left (
      rw (delete-select test s.db.oauth_states)
        ((λ m. ((kept.0 m).0, forth (kept.0 m).1)), (λ (m, k). kept.1 (m, back k))))
