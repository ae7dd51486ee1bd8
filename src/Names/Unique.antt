-- ===== src/Names/Unique.antt =====
-- The names of a cluster's StatefulSets and pods are different from each other.
use Prim.Native.String.{◌++◌}
use text.Mathlib.TextLemmas.{append_cancel_left}
use elasticell_operator.Base.{ℕ, String, pos, ◌≡◌, ◌≢◌, eq_iff, arith}
use elasticell_operator.Base.Text.Unique.{decimal_inj}
use elasticell_operator.Names.{
  pd_member_name, store_member_name, proxy_member_name, store_pod_name, signed_decimal,
}

pub store_pod_name_inj :
    (cluster : String) (i j : ℕ)
    → store_pod_name cluster (pos i) ≡ store_pod_name cluster (pos j)
    → i ≡ j
unfolding store_pod_name store_member_name signed_decimal
store_pod_name_inj cluster i j e =
    decimal_inj i j (append_cancel_left "-" _ _ (append_cancel_left (cluster ++ "-store") _ _ e))

suffixes : (cluster a b : String) → a ≢ b → cluster ++ a ≢ cluster ++ b
suffixes cluster a b d e = d (append_cancel_left cluster a b e)

pub store-is_not-pd : (cluster : String) → store_member_name cluster ≢ pd_member_name cluster
unfolding store_member_name pd_member_name
store-is_not-pd cluster =
    suffixes cluster "-store" "-pd" (λ e. ground (arith, eq_iff "-store" "-pd"))

pub proxy-is_not-pd : (cluster : String) → proxy_member_name cluster ≢ pd_member_name cluster
unfolding proxy_member_name pd_member_name
proxy-is_not-pd cluster =
    suffixes cluster "-proxy" "-pd" (λ e. ground (arith, eq_iff "-proxy" "-pd"))
