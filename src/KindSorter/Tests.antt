-- ===== src/KindSorter/Tests.antt =====
-- The order of kinds at concrete kinds.
use opendatahub_operator.Prelude.{◌≡◌, refl, true, ltb, string_dec, arith}
use opendatahub_operator.KindSorter.{install_order, new_ordering, less}
use opendatahub_operator.KindSorter.Order.{less_of_known, less_cycle}

less_of_known_example : less (new_ordering install_order) "Service" "Deployment" ≡ ltb 15 20
unfolding string_dec
less_of_known_example =
    less_of_known install_order "Service" "Deployment" 15 20 refl refl (λ e. omega arith)

less_cycle_example :
    (less (new_ordering install_order) "KfDef" "Namespace" ≡ true)
    × (less (new_ordering install_order) "Namespace" "Secret" ≡ true)
    × (less (new_ordering install_order) "Secret" "KfDef" ≡ true)
unfolding string_dec
less_cycle_example = less_cycle install_order "Namespace" "Secret" "KfDef" 3 refl refl refl refl
