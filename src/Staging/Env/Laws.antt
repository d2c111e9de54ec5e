-- ===== src/Staging/Env/Laws.antt =====
-- How the environment maps of staging follow a change of one key (runtime/staging.go).
use gc_runtime_nomad.Base.{
  Bool, false, not, none, some, [], ◌∷◌, String, Dict, ◌≡◌, refl, ap, ◌∙◌, ◌⊎◌, lookup, insert,
  value_of, keep_keys, lookup-insert, str_eq, eq_iff, arith, if◌then◌else◌,
}
use gc_runtime_nomad.Staging.Env.{is_blank_at, is_local_city_store, strip_local_city_store_env}

pub value_of-insert :
    (key j value : String) (env : Dict String)
    → str_eq key j ≡ false
    → value_of j (insert key value env) ≡ value_of j env
unfolding value_of
value_of-insert key j value env other =
    ap (λ o. elim o as (λ _. String) [ none ↦ "" | some v ↦ v ]) (found other)
  where
    found : str_eq key j ≡ false → lookup j (insert key value env) ≡ lookup j env
    found no_match =
        lookup-insert key j value env ∙ ap (λ b. if b then some value else lookup j env) no_match

module _ {ℓ} {V : Type ℓ} where
  pub keep_keys-insert :
      (p : String → Bool) (key : String) (value : V) (env : Dict V)
      → keep_keys p (insert key value env)
        ≡ (if p key then insert key value (keep_keys p env) else keep_keys p env)
  unfolding keep_keys insert
  keep_keys-insert p key value [] = refl
  keep_keys-insert p key value ((k, v) ∷ env) =
      ground (arith, eq_iff k key, keep_keys-insert p key value env)

-- A key that is none of the two remote targets leaves the choice of the strip as it is.
pub strip-insert :
    (key value : String) (env : Dict String)
    → str_eq key "GC_CITY_URL" ≡ false
    → str_eq key "GC_CITY_CONTEXT" ≡ false
    → (strip_local_city_store_env (insert key value env)
        ≡ insert key value (strip_local_city_store_env env))
      ⊎ (strip_local_city_store_env (insert key value env) ≡ strip_local_city_store_env env)
unfolding strip_local_city_store_env is_blank_at
strip-insert key value env not_url not_context =
    rw (value_of-insert key "GC_CITY_URL" value env not_url) (
      rw (value_of-insert key "GC_CITY_CONTEXT" value env not_context) (
        ground
          (arith, keep_keys-insert (λ (k : String). not (is_local_city_store k)) key value env)))
