-- ===== src/Controller/Reconcile/Keys.antt =====
-- The keys of `kfdefInstances`, and the annotation of the same form: they name a KfDef as
-- `name.namespace`, and are taken apart again at the dots.
use Prim.Native.Char.{Char}
use Prim.Native.String.append
use opendatahub_operator.Prelude.{String, ◌<>◌, ◌≡◌, ◌≢◌, refl, ap, ◌∙◌, List, [], ◌∷◌, ◌++◌}
use opendatahub_operator.Errors.{text}
use opendatahub_operator.Result.{ok, err, run}
use opendatahub_operator.Strings.{Lacks, split, join, split-append, split-nonempty, split_of_Lacks}
use opendatahub_operator.Controller.{KfDef, Request, Cluster, instance_key}
use opendatahub_operator.Controller.Watch.{parse_instance}
use opendatahub_operator.Controller.Reconcile.{delete_one}

abbrev pub request_of : KfDef → Request
request_of i = record { namespace = i.namespace; name = i.name }

abbrev dot : Char
dot = "."

dot-append : (t : String) → "." <> t ≡ String.◌∷◌ dot t
dot-append t = append.cons dot String.[] t ∙ ap (String.◌∷◌ dot) (append.nil t)

split-instance_key :
    (i : KfDef) → split b'.' (instance_key i) ≡ split b'.' i.name ++ split b'.' i.namespace
unfolding instance_key join
split-instance_key i = rw dot-append (split-append dot i.name i.namespace)

-- A key or an annotation that is made of a name and a namespace without dots is read back as the
-- request for that KfDef.
pub parse_instance-instance_key :
    {W : Type 0} (i : KfDef) (w : W)
    → Lacks b'.' i.name
    → Lacks b'.' i.namespace
    → parse_instance (instance_key i) w ≡ (ok (request_of i), w)
unfolding parse_instance run
parse_instance-instance_key i w p q =
    rw (split-instance_key i, split_of_Lacks b'.' i.name p, split_of_Lacks b'.' i.namespace q)

module _ (C : Cluster) where
  -- The step of the uninstallation that deletes the KfDef of one key refuses three pieces or more.
  delete_one_of_three :
      (xs ys zs : List String) (s : C.State)
      → xs ≢ []
      → ys ≢ []
      → zs ≢ []
      → delete_one C ((xs ++ ys) ++ zs) s
        ≡ (err (text "error getting kfdef instance name and namespace"), s)
  unfolding delete_one run
  delete_one_of_three [] ys zs s p q r = absurd (p refl)
  delete_one_of_three (x ∷ xs) [] zs s p q r = absurd (q refl)
  delete_one_of_three (x ∷ xs) (y ∷ ys) [] s p q r = absurd (r refl)
  delete_one_of_three (x ∷ []) (y ∷ []) (z ∷ zs) s p q r = refl
  delete_one_of_three (x ∷ []) (y ∷ y' ∷ ys) (z ∷ zs) s p q r = refl
  delete_one_of_three (x ∷ x' ∷ []) (y ∷ ys) (z ∷ zs) s p q r = refl
  delete_one_of_three (x ∷ x' ∷ x'' ∷ xs) (y ∷ ys) (z ∷ zs) s p q r = refl

  -- A KfDef whose name holds a dot, which the API server allows, cannot be deleted by an
  -- uninstallation: its key has more than two pieces, and the step fails without a call.
  pub delete_one-dotted_name :
      (i : KfDef) (a b : String) (s : C.State)
      → i.name ≡ a <> (String.◌∷◌ dot b)
      → delete_one C (split b'.' (instance_key i)) s
        ≡ (err (text "error getting kfdef instance name and namespace"), s)
  delete_one-dotted_name i a b s named =
      rw (split-instance_key i, named, split-append dot a b)
        (delete_one_of_three _ _ _ s (split-nonempty b'.' a) (split-nonempty b'.' b)
          (split-nonempty b'.' i.namespace))
