-- ===== src/Coordinator/Log.antt =====
-- A log of the calls out of the coordinator, and rules for what a sequence of actions logs.
use mathlib.Core.List.{append_assoc, append-nil}
use opendatahub_operator.Prelude.{
  String, ◌≡◌, refl, sym, ap, ◌∙◌, Bool, true, false, if◌then◌else◌, List, [], ◌∷◌, ◌++◌,
}
use opendatahub_operator.Errors.{Error}
use opendatahub_operator.Apps.{ResourceEnum}
use opendatahub_operator.Result.{
  Result, ok, err, panics, Action, continue, ◌>>=◌, pure, raise, panic, attempt, gets, run,
}
use opendatahub_operator.Result.Keeps.{attempt_world}

-- The methods of a `KfApp` that the coordinator passes on.
pub data Method : Type 0 where
  apply_method delete_method generate_method init_method : Method

-- The calls out of the coordinator. One to a platform or a package manager tells the method, its
-- argument and the name.
pub data Call : Type 0 where
  sync_call save_call permission_call pod_default_call : Call
  platform_call manager_call : Method → ResourceEnum → String → Call

abbrev pub Succeeded : {A : Type 0} → Result A → Type 0
Succeeded (ok _) = Unit {0}
Succeeded _ = ⊥

-- From `before` to `after` the first ones of the calls have been made, all of them on success.
pub record IsRun {A : Type 0} (calls before after : List Call) (r : Result A) : Type 0 where
  pub made : List Call
  pub left : List Call
  pub parts : calls ≡ made ++ left
  pub logged : after ≡ before ++ made
  pub complete : Succeeded r → left ≡ []

-- A log of the calls that a world has seen, and what the calls leave alone.
module _ {S : Type 0} (log : S → List Call) (name_of email_of : S → String) where
  pub record Logs {A : Type 0} (name email : String) (calls : List Call) (m : Action S A)
      : Type 0 where
    pub run_of :
        (s : S) → name_of s ≡ name → email_of s ≡ email → IsRun calls (log s) (log (m s).1) (m s).0
    pub same_name : (s : S) → name_of s ≡ name → email_of s ≡ email → name_of (m s).1 ≡ name
    pub same_email : (s : S) → name_of s ≡ name → email_of s ≡ email → email_of (m s).1 ≡ email

  -- A call out of the coordinator: it is logged, however it ends.
  pub record IsCall {A : Type 0} (x : Call) (m : Action S A) : Type 0 where
    pub logged : (s : S) → log (m s).1 ≡ log s ++ x ∷ []
    pub same_name : (s : S) → name_of (m s).1 ≡ name_of s
    pub same_email : (s : S) → email_of (m s).1 ≡ email_of s

IsRun-append :
    {A B : Type 0} (xs ys before middle after : List Call) (r : Result A) (r' : Result B)
    → IsRun xs before middle r
    → Succeeded r
    → IsRun ys middle after r'
    → IsRun (xs ++ ys) before after r'
IsRun-append xs ys before middle after r r' h k g = record {
  made = h.made ++ g.made;
  left = g.left;
  parts =
      ap (λ zs. xs ++ zs) g.parts
      ∙ sym (append_assoc xs g.made g.left)
      ∙ ap (λ zs. (zs ++ g.made) ++ g.left)
          (h.parts ∙ ap (λ zs. h.made ++ zs) (h.complete k) ∙ append-nil h.made);
  logged = g.logged ∙ ap (λ zs. zs ++ g.made) h.logged ∙ append_assoc before h.made g.made;
  complete = g.complete;
}

-- A failed part of a run is a failed run.
IsRun-stop :
    {A B : Type 0} (xs ys before after : List Call) (r : Result A) (r' : Result B)
    → IsRun xs before after r
    → ¬ (Succeeded r')
    → IsRun (xs ++ ys) before after r'
IsRun-stop xs ys before after r r' h k = record {
  made = h.made;
  left = h.left ++ ys;
  parts = ap (λ zs. zs ++ ys) h.parts ∙ append_assoc h.made h.left ys;
  logged = h.logged;
  complete = λ g. absurd (k g);
}

IsRun-nil : {A : Type 0} (before : List Call) (r : Result A) → IsRun [] before before r
IsRun-nil before r = record {
  made = [];
  left = [];
  parts = refl;
  logged = sym (append-nil before);
  complete = λ _. refl;
}

module _ {S : Type 0} {log : S → List Call} {name_of email_of : S → String}
    {name email : String} where
  continue-IsRun :
      {A B : Type 0} (xs ys : List Call) (f : A → Action S B) (s : S) (r : Result A) (s' : S)
      → IsRun xs (log s) (log s') r
      → name_of s' ≡ name
      → email_of s' ≡ email
      → ((a : A) → Logs log name_of email_of name email ys (f a))
      → IsRun (xs ++ ys) (log s) (log (continue f r s').1) (continue f r s').0
  unfolding continue
  continue-IsRun xs ys f s (ok a) s' h p q k =
      IsRun-append xs ys (log s) (log s') (log (f a s').1) (ok a) (f a s').0 h tt
        ((k a).run_of s' p q)
  continue-IsRun xs ys f s (err e) s' h p q k =
      IsRun-stop xs ys (log s) (log s') (err e) (err e) h (λ g. g)
  continue-IsRun xs ys f s (panics m) s' h p q k =
      IsRun-stop xs ys (log s) (log s') (panics m) (panics m) h (λ g. g)

  continue-name :
      {A B : Type 0} (ys : List Call) (f : A → Action S B) (r : Result A) (s : S)
      → name_of s ≡ name
      → email_of s ≡ email
      → ((a : A) → Logs log name_of email_of name email ys (f a))
      → (name_of (continue f r s).1 ≡ name) × (email_of (continue f r s).1 ≡ email)
  unfolding continue
  continue-name ys f (ok a) s p q k = ((k a).same_name s p q, (k a).same_email s p q)
  continue-name ys f (err e) s p q k = (p, q)
  continue-name ys f (panics m) s p q k = (p, q)

  pub Logs-bind :
      {A B : Type 0} (xs ys : List Call) {m : Action S A} {f : A → Action S B}
      → Logs log name_of email_of name email xs m
      → ((a : A) → Logs log name_of email_of name email ys (f a))
      → Logs log name_of email_of name email (xs ++ ys) (m >>= f)
  unfolding run
  Logs-bind xs ys {m} {f} h k = record {
    run_of = λ s p q.
        continue-IsRun xs ys f s (m s).0 (m s).1 (h.run_of s p q) (h.same_name s p q)
          (h.same_email s p q) k;
    same_name =
        λ s p q. (continue-name ys f (m s).0 (m s).1 (h.same_name s p q) (h.same_email s p q) k).0;
    same_email =
        λ s p q. (continue-name ys f (m s).0 (m s).1 (h.same_name s p q) (h.same_email s p q) k).1;
  }

  -- An action that leaves the world alone logs nothing.
  pub Logs-idle :
      {A : Type 0} {m : Action S A}
      → ((s : S) → (m s).1 ≡ s)
      → Logs log name_of email_of name email [] m
  Logs-idle {m = m} h = record {
    run_of = λ s p q. rw (h s) (IsRun-nil (log s) (m s).0);
    same_name = λ s p q. rw (h s) p;
    same_email = λ s p q. rw (h s) q;
  }

  pub Logs-pure : {A : Type 0} (a : A) → Logs log name_of email_of name email [] (pure a)
  unfolding run
  Logs-pure a = Logs-idle λ s. refl

  pub Logs-raise :
      {A : Type 0} (e : Error) → Logs log name_of email_of name email [] (raise {A = A} e)
  unfolding run
  Logs-raise e = Logs-idle λ s. refl

  pub Logs-gets : {A : Type 0} (f : S → A) → Logs log name_of email_of name email [] (gets f)
  unfolding run
  Logs-gets f = Logs-idle λ s. refl

  pub Logs-panic :
      {A : Type 0} (x : String) → Logs log name_of email_of name email [] (panic {A = A} x)
  unfolding run
  Logs-panic x = Logs-idle λ s. refl

  -- Two actions that agree where the two names are known.
  pub Logs-same :
      {A : Type 0} (xs : List Call) {m k : Action S A}
      → ((s : S) → name_of s ≡ name → email_of s ≡ email → m s ≡ k s)
      → Logs log name_of email_of name email xs k
      → Logs log name_of email_of name email xs m
  Logs-same xs {m} {k} e h = record {
    run_of = λ s p q. rw (e s p q) (h.run_of s p q);
    same_name = λ s p q. rw (e s p q) (h.same_name s p q);
    same_email = λ s p q. rw (e s p q) (h.same_email s p q);
  }

  pub Logs-call :
      {A : Type 0} {x : Call} {m : Action S A}
      → IsCall log name_of email_of x m
      → Logs log name_of email_of name email (x ∷ []) m
  Logs-call {x = x} h = record {
    run_of = λ s p q. record {
      made = x ∷ [];
      left = [];
      parts = refl;
      logged = h.logged s;
      complete = λ _. refl;
    };
    same_name = λ s p q. h.same_name s ∙ p;
    same_email = λ s p q. h.same_email s ∙ q;
  }

  pub Logs-if :
      {A : Type 0} (b : Bool) (xs ys : List Call) {m k : Action S A}
      → Logs log name_of email_of name email xs m
      → Logs log name_of email_of name email ys k
      → Logs log name_of email_of name email (if b then xs else ys) (if b then m else k)
  Logs-if true xs ys h g = h
  Logs-if false xs ys h g = g

pub IsCall-attempt :
    {S A : Type 0} {log : S → List Call} {name_of email_of : S → String} {x : Call} {m : Action S A}
    → IsCall log name_of email_of x m
    → IsCall log name_of email_of x (attempt m)
IsCall-attempt {log = log} {name_of = name_of} {email_of = email_of} {m = m} h = record {
  logged = λ s. ap log (attempt_world m s) ∙ h.logged s;
  same_name = λ s. ap name_of (attempt_world m s) ∙ h.same_name s;
  same_email = λ s. ap email_of (attempt_world m s) ∙ h.same_email s;
}
