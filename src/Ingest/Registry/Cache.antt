-- ===== src/Ingest/Registry/Cache.antt =====
-- The cache of the registry: `resolve`, the end of a load, `forget` and `sweep`.
use text.Mathlib.TextLemmas.{nil-append, cons-append}
use kab23_motorsport_telemet.Prelude.{
  ℕ, suc, ◌+◌, ◌<◌, String, ◌≡◌, ◌≢◌, refl, sym, ap, ◌∙◌, List, ◌∷◌, Option, none, some, Result, ok,
  err, leb, arith, eq_iff, eq_refl, Option-cases, inl, inr,
}
use kab23_motorsport_telemet.Prelude.Assoc.{
  lookup, insert, erase, lookup-insert, lookup-erase, lookup-prune_kept, lookup-prune_gone,
}
use kab23_motorsport_telemet.Wire.Segments.{◌⧺◌, split, Without, join, split-append, join-split}
use kab23_motorsport_telemet.Ingest.Registry.{
  SessionContext, CacheEntry, Registry, key, resolve, hit, settle, forget, sweep, context_ttl_ms,
}
use kab23_motorsport_telemet.Ingest.Sessions.{DbFault}

cons-injective {ℓ} : {A : Type ℓ} (x y : A) (xs ys : List A) → x ∷ xs ≡ y ∷ ys → (x ≡ y) × (xs ≡ ys)
cons-injective x y xs ys e = ground arith

split-key :
    (device_id sid : String)
    → Without 0 device_id
    → split 0 (key device_id sid) ≡ device_id ∷ split 0 sid
unfolding key
split-key device_id sid plain =
    ap (split 0) (
      ap (◌⧺◌ device_id)
        (cons-append "\0" "" sid ∙ ap (Prim.Native.String.◌∷◌ "\0") (nil-append sid)))
    ∙ split-append "\0" device_id sid plain

-- Two runs whose device ids have no NUL character share a cache key only if both the device id
-- and the session id are the same.
pub key-injective :
    (d₁ s₁ d₂ s₂ : String)
    → Without 0 d₁
    → Without 0 d₂
    → key d₁ s₁ ≡ key d₂ s₂
    → (d₁ ≡ d₂) × (s₁ ≡ s₂)
key-injective d₁ s₁ d₂ s₂ plain₁ plain₂ e =
    let (same_device, same_rest) =
      cons-injective d₁ d₂ (split 0 s₁) (split 0 s₂)
        (sym (split-key d₁ s₁ plain₁) ∙ ap (split 0) e ∙ split-key d₂ s₂ plain₂) in
    (same_device, sym (join-split "\0" s₁) ∙ ap (join "\0") same_rest ∙ join-split "\0" s₂)

module _ (device_id sid : String) (r : Registry) where
  -- A second resolve of a run waits for the same load as the first and starts none.
  pub resolve_again :
      (now later : ℕ)
      → let (promise, r') = resolve now device_id sid r in
        ((resolve later device_id sid r').0 ≡ promise)
        × ((resolve later device_id sid r').1.loads ≡ r'.loads)
  unfolding resolve hit
  resolve_again now later = elim (Option-cases (lookup (key device_id sid) r.contexts)) [
    | inl fresh ↦ rw (fresh, lookup-insert, eq_refl) (refl, refl)
    | inr (c, cached) ↦ rw (cached, lookup-insert, eq_refl) (refl, refl)
  ]

  -- After a load that found no car, one that failed, and a stop, the next resolve starts a new
  -- load.
  pub resolve_after_failure :
      (now : ℕ) (fault : DbFault)
      → let absent = settle device_id sid (ok none) r in
        let broken = settle device_id sid (err fault) r in
        let stopped = forget device_id sid r in
        ((resolve now device_id sid absent).0 ≡ r.loads)
        × ((resolve now device_id sid absent).1.loads ≡ suc r.loads)
        × ((resolve now device_id sid broken).0 ≡ r.loads)
        × ((resolve now device_id sid broken).1.loads ≡ suc r.loads)
        × ((resolve now device_id sid stopped).0 ≡ r.loads)
        × ((resolve now device_id sid stopped).1.loads ≡ suc r.loads)
  unfolding resolve hit settle forget
  resolve_after_failure now fault = rw (lookup-erase, eq_refl) (refl, refl, refl, refl, refl, refl)

  resolve-cached :
      (now : ℕ)
      → let (promise, r') = resolve now device_id sid r in
        lookup (key device_id sid) r'.contexts
        ≡ some (record { resolving = promise; expires_at = now + context_ttl_ms })
  unfolding resolve hit
  resolve-cached now = elim (Option-cases (lookup (key device_id sid) r.contexts)) [
    | inl fresh ↦ rw (fresh, lookup-insert, eq_refl) refl
    | inr (c, cached) ↦ rw (cached, lookup-insert, eq_refl) refl
  ]

  -- A sweep before the time to live of the last touch is over keeps the entry: the next resolve
  -- waits for the same load and starts none.
  pub resolve-sweep :
      (now later : ℕ)
      → later < now + context_ttl_ms
      → let (promise, r') = resolve now device_id sid r in
        ((resolve later device_id sid (sweep later r')).0 ≡ promise)
        × ((resolve later device_id sid (sweep later r')).1.loads ≡ r'.loads)
  unfolding resolve hit sweep
  resolve-sweep now later early =
      let kept =
        lookup-prune_kept (λ e. leb e.expires_at later) (key device_id sid) _ _ (resolve-cached now)
          (ground arith) in
      ground arith

  -- What a sweep leaves in the cache has not expired at the time of the sweep.
  pub sweep-fresh :
      (k : String) (now : ℕ) (c : CacheEntry)
      → lookup k (sweep now r).contexts ≡ some c
      → now < c.expires_at
  unfolding sweep
  sweep-fresh k now c found =
      let live = lookup-prune_gone (λ e. leb e.expires_at now) k c r.contexts found in ground arith

  insert_apart :
      (k : String) (c : CacheEntry)
      → k ≢ key device_id sid
      → lookup k (insert (key device_id sid) c r.contexts) ≡ lookup k r.contexts
  insert_apart k c other =
      lookup-insert (key device_id sid) k c r.contexts
      ∙ ground (arith, eq_iff (key device_id sid) k)

  erase_apart :
      (k : String)
      → k ≢ key device_id sid
      → lookup k (erase (key device_id sid) r.contexts) ≡ lookup k r.contexts
  erase_apart k other =
      lookup-erase (key device_id sid) k r.contexts ∙ ground (arith, eq_iff (key device_id sid) k)

  settle_apart :
      (k : String) (res : Result DbFault (Option SessionContext))
      → k ≢ key device_id sid
      → lookup k (settle device_id sid res r).contexts ≡ lookup k r.contexts
  unfolding settle
  settle_apart k (ok (some c)) other = refl
  settle_apart k (ok none) other = erase_apart k other
  settle_apart k (err e) other = erase_apart k other

  resolve_apart :
      (k : String) (now : ℕ) (o : Option CacheEntry)
      → k ≢ key device_id sid
      → lookup k (hit now (key device_id sid) r o).1.contexts ≡ lookup k r.contexts
  unfolding hit
  resolve_apart k now none other = insert_apart k _ other
  resolve_apart k now (some c) other = insert_apart k _ other

  -- A resolve, the end of a load and a stop of one run leave the entry of every other key as it
  -- is.
  pub cache_apart :
      (k : String) (now : ℕ) (res : Result DbFault (Option SessionContext))
      → k ≢ key device_id sid
      → (lookup k (resolve now device_id sid r).1.contexts ≡ lookup k r.contexts)
        × (lookup k (settle device_id sid res r).contexts ≡ lookup k r.contexts)
        × (lookup k (forget device_id sid r).contexts ≡ lookup k r.contexts)
  unfolding resolve forget
  cache_apart k now res other =
      (resolve_apart k now _ other, settle_apart k res other, erase_apart k other)
