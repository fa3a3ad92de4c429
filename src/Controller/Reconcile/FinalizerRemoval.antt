-- ===== src/Controller/Reconcile/FinalizerRemoval.antt =====
-- The loop that removes the finalizer, and tries again on a conflict.
mod Tests
use native.Mathlib.Decide.{ℕ_discrete}
use opendatahub_operator.Prelude.{
  ◌≢◌, ℕ, zero, suc, ◌≤◌, ◌<◌, String, ◌≡◌, refl, ◌∙◌, false, List, arith, ◌⊎◌, inl, inr, leb,
  Bool-cases,
}
use opendatahub_operator.Errors.{Error, api_conflict}
use opendatahub_operator.Result.{Result, ok, err, Action, attempt, run}
use opendatahub_operator.Result.Keeps.{bind-ok}
use opendatahub_operator.Controller.{KfDef, Request, Cluster, has, finalizer, finalizer_max_retries}
use opendatahub_operator.Controller.Reconcile.Instances.{has-delete}
use opendatahub_operator.Controller.Reconcile.{
  without_finalizer, retry_update, update_stored, remove_finalizer,
}

le_or_lt : (a b : ℕ) → (a ≤ b) ⊎ (b < a)
le_or_lt a b = elim (Bool-cases (leb a b)) [
  | inl h ↦ inl (ground arith)
  | inr h ↦ inr (ground arith)
]

-- The API server's optimistic locking of the object of the request, and the other clients: `version s`
-- is the resource version that the server has, `stored s` are the finalizers it has, and before each
-- of our next `others s` updates another client writes the object. An update is a conflict after such
-- a write, and where it is of another version than the server's; an update of the server's version is
-- stored. Reading gives the object as the server has it.
pub record IsLocking (C : Cluster) (request : Request) (version others : C.State → ℕ)
    (stored : C.State → List String) : Type 0 where
  pub overtaken :
      (i : KfDef) (s : C.State) (n : ℕ)
      → others s ≡ suc n
      → (m : String) × (s' : C.State) × (C.update i s ≡ (err (api_conflict m), s'))
        × (version s < version s')
        × (others s' ≡ n)
  pub stale :
      (i : KfDef) (s : C.State)
      → others s ≡ zero
      → i.resource_version ≢ version s
      → (m : String) × (s' : C.State) × (C.update i s ≡ (err (api_conflict m), s'))
        × (others s' ≡ zero)
  pub current :
      (i : KfDef) (s : C.State)
      → others s ≡ zero
      → i.resource_version ≡ version s
      → (j : KfDef) × (s' : C.State) × (C.update i s ≡ (ok j, s')) × (stored s' ≡ i.finalizers)
  pub read :
      (s : C.State)
      → (j : KfDef) × (s' : C.State) × (C.get request s ≡ (ok j, s'))
        × (j.resource_version ≡ version s')
        × (others s' ≡ others s)
  pub listed : (x : String) (xs : List String) → has x (C.set_list xs) ≡ has x xs

attempt_err :
    {W A : Type 0} (m : Action W A) (w : W) {e : Error} {w' : W}
    → m w ≡ (err e, w')
    → attempt m w ≡ (ok (err e), w')
unfolding run
attempt_err m w h = rw h

attempt_ok :
    {W A : Type 0} (m : Action W A) (w : W) {a : A} {w' : W}
    → m w ≡ (ok a, w')
    → attempt m w ≡ (ok (ok a), w')
unfolding run
attempt_ok m w h = rw h

module _ (C : Cluster) (request : Request) where
  -- One turn of the loop: the object is read and updated.
  retry_step :
      (n : ℕ) (i j : KfDef) (m : String) (r : Result KfDef) (s s1 s2 : C.State)
      → C.get request s ≡ (ok j, s1)
      → attempt (C.update (without_finalizer C j)) s1 ≡ (ok r, s2)
      → retry_update C (suc n) request i (err (api_conflict m)) s
        ≡ retry_update C n request (without_finalizer C j) r s2
  unfolding retry_update
  retry_step n i j m r s s1 s2 eg eu =
      bind-ok (attempt (C.get request)) _ (attempt_ok (C.get request) s eg)
      ∙ bind-ok (attempt (C.update (without_finalizer C j))) _ eu

  retry_of_ok :
      (n : ℕ) (i j : KfDef) (s : C.State) → retry_update C n request i (ok j) s ≡ (ok (ok j), s)
  unfolding retry_update run
  retry_of_ok zero i j s = refl
  retry_of_ok (suc n) i j s = refl

  retry_of_none :
      (i : KfDef) (r : Result KfDef) (s : C.State) → retry_update C zero request i r s ≡ (ok r, s)
  unfolding retry_update run
  retry_of_none i r s = refl

  remove_finalizer_steps :
      (i : KfDef) (r r' : Result KfDef) (s s1 s2 : C.State)
      → attempt (C.update (without_finalizer C i)) s ≡ (ok r, s1)
      → retry_update C finalizer_max_retries request (without_finalizer C i) r s1 ≡ (ok r', s2)
      → remove_finalizer C request i s ≡ update_stored C r' s2
  unfolding remove_finalizer
  remove_finalizer_steps i r r' s s1 s2 eu er =
      bind-ok (attempt (C.update (without_finalizer C i))) _ eu
      ∙ bind-ok (retry_update C finalizer_max_retries request (without_finalizer C i) r) _ er

module _ (C : Cluster) (request : Request) (version others : C.State → ℕ)
    (stored : C.State → List String) (law : IsLocking C request version others stored) where
  without_finalizer-stored :
      (i : KfDef) (s : C.State)
      → stored s ≡ (without_finalizer C i).finalizers
      → has finalizer (stored s) ≡ false
  without_finalizer-stored i s e =
      rw (e, law.listed, has-delete finalizer finalizer i.finalizers) (ground arith)

  -- After a conflict, with `k` writes of others to come and `n` retries left.
  retries_suffice :
      (n k : ℕ) (i : KfDef) (m : String) (s : C.State)
      → others s ≡ k
      → k < n
      → (j : KfDef) × (s' : C.State) × (retry_update C n request i (err (api_conflict m)) s
          ≡ (ok (ok j), s'))
        × (has finalizer (stored s') ≡ false)
  retries_suffice zero k i m s e h = elim h [ ]
  retries_suffice (suc n) zero i m s e h =
      let (i', s1, eg, now, l1) = law.read s in
      let (j, s2, eu, st) = law.current (without_finalizer C i') s1 (l1 ∙ e) now in
      (
        j,
        s2,
        retry_step C request n i i' m (ok j) s s1 s2 eg
              (attempt_ok (C.update (without_finalizer C i')) s1 eu)
            ∙ retry_of_ok C request n (without_finalizer C i') j s2,
        without_finalizer-stored i' s2 st,
      )
  retries_suffice (suc n) (suc k) i m s e h =
      let (i', s1, eg, now, l1) = law.read s in
      let (m', s2, eu, newer, l2) = law.overtaken (without_finalizer C i') s1 k (l1 ∙ e) in
      let (j, s3, er, gone) = retries_suffice n k (without_finalizer C i') m' s2 l2 (omega arith) in
      (
        j,
        s3,
        retry_step C request n i i' m (err (api_conflict m')) s s1 s2 eg
              (attempt_err (C.update (without_finalizer C i')) s1 eu)
            ∙ er,
        gone,
      )

  retries_run_out :
      (n k : ℕ) (i : KfDef) (m : String) (s : C.State)
      → others s ≡ k
      → n ≤ k
      → (m' : String) × (s' : C.State) × (retry_update C n request i (err (api_conflict m)) s
          ≡ (ok (err (api_conflict m')), s'))
  retries_run_out zero k i m s e h = (m, s, retry_of_none C request i (err (api_conflict m)) s)
  retries_run_out (suc n) zero i m s e h = absurd (omega arith)
  retries_run_out (suc n) (suc k) i m s e h =
      let (i', s1, eg, now, l1) = law.read s in
      let (m', s2, eu, newer, l2) = law.overtaken (without_finalizer C i') s1 k (l1 ∙ e) in
      let (m'', s3, er) = retries_run_out n k (without_finalizer C i') m' s2 l2 (omega arith) in
      (
        m'',
        s3,
        retry_step C request n i i' m (err (api_conflict m')) s s1 s2 eg
              (attempt_err (C.update (without_finalizer C i')) s1 eu)
            ∙ er,
      )

  -- The removal, when its first update is a conflict.
  removed_after_conflict :
      (i : KfDef) (s s1 : C.State) (m : String) (k : ℕ)
      → C.update (without_finalizer C i) s ≡ (err (api_conflict m), s1)
      → others s1 ≡ k
      → k < finalizer_max_retries
      → (s' : C.State) × (remove_finalizer C request i s ≡ (ok tt, s'))
        × (has finalizer (stored s') ≡ false)
  unfolding update_stored run
  removed_after_conflict i s s1 m k eu l1 h =
      let (j, s2, er, gone) =
        retries_suffice finalizer_max_retries k (without_finalizer C i) m s1 l1 h in
      (
        s2,
        remove_finalizer_steps C request i (err (api_conflict m)) (ok j) s s1 s2
            (attempt_err (C.update (without_finalizer C i)) s eu) er,
        gone,
      )

  remove_finalizer_stored :
      (i : KfDef) (s : C.State) (k : ℕ)
      → others s ≡ k
      → k ≤ finalizer_max_retries
      → (s' : C.State) × (remove_finalizer C request i s ≡ (ok tt, s'))
        × (has finalizer (stored s') ≡ false)
  unfolding update_stored run
  remove_finalizer_stored i s zero e h = elim (ℕ_discrete i.resource_version (version s)) [
    | yes now ↦
        let (j, s1, eu, st) = law.current (without_finalizer C i) s e now in
        (
          s1,
          remove_finalizer_steps C request i (ok j) (ok j) s s1 s1
              (attempt_ok (C.update (without_finalizer C i)) s eu)
              (retry_of_ok C request finalizer_max_retries (without_finalizer C i) j s1),
          without_finalizer-stored i s1 st,
        )
    | no old ↦
        let (m, s1, eu, l1) = law.stale (without_finalizer C i) s e old in
        removed_after_conflict i s s1 m zero eu l1 (omega arith)
  ]
  remove_finalizer_stored i s (suc k) e h =
      let (m, s1, eu, newer, l1) = law.overtaken (without_finalizer C i) s k e in
      removed_after_conflict i s s1 m k eu l1 (omega arith)

  remove_finalizer_refused :
      (i : KfDef) (s : C.State) (k : ℕ)
      → others s ≡ k
      → finalizer_max_retries < k
      → (m : String) × (s' : C.State) × (remove_finalizer C request i s
          ≡ (err (api_conflict m), s'))
  unfolding update_stored run
  remove_finalizer_refused i s zero e h = elim h [ ]
  remove_finalizer_refused i s (suc k) e h =
      let (m, s1, eu, newer, l1) = law.overtaken (without_finalizer C i) s k e in
      let (m', s2, er) =
        retries_run_out finalizer_max_retries k (without_finalizer C i) m s1 l1 (omega arith) in
      (
        m',
        s2,
        remove_finalizer_steps C request i (err (api_conflict m)) (err (api_conflict m')) s s1 s2
            (attempt_err (C.update (without_finalizer C i)) s eu) er,
      )

  -- Against a server with optimistic locking, where other clients write the object before each of the
  -- next `others s` updates, and reads succeed: the removal of the finalizer from an instance, of
  -- whatever version it is, succeeds when they are at most ten, and what is stored then lacks the
  -- finalizer; with more of them it ends in a conflict error.
  pub remove_finalizer_exact :
      (i : KfDef) (s : C.State)
      → ((others s ≤ 10)
          × (s' : C.State) × (remove_finalizer C request i s ≡ (ok tt, s'))
          × (has finalizer (stored s') ≡ false))
        ⊎ ((10 < others s)
            × (m : String) × (s' : C.State) × (remove_finalizer C request i s
                ≡ (err (api_conflict m), s')))
  remove_finalizer_exact i s = elim (le_or_lt (others s) 10) [
    | inl few ↦
        let (s', done, gone) = remove_finalizer_stored i s (others s) refl few in
        inl (few, s', done, gone)
    | inr many ↦
        let (m, s', refused) = remove_finalizer_refused i s (others s) refl many in
        inr (many, m, s', refused)
  ]
