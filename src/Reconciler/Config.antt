-- ===== src/Reconciler/Config.antt =====
-- An instance works for one configuration only, and what leaves the cluster alone.
use mathlib.Core.Path.{subst}
use espejote.Base.{
  String, List, [], ◌∷◌, Listed, All, All-of_Listed, false, num_eq, ◌==◌, ◌≡◌, ◌≢◌, ◌⊎◌, ◌∙◌, inl,
  inr, refl, sym, ap, eq_iff, arith, ok, err, Result-cases, Bool-cases,
}
use espejote.Kube.{Unstructured}
use espejote.Api.{ManagedResource}
use espejote.Manager.{Hasher, config_hash_for_managed_resource}
use espejote.Renderer.{TriggerInfo}
use espejote.Reconciler.Errors.{ReconcileError, plain, typed, apply_error}
use espejote.Reconciler.{
  State, Env, done, check_config, reconcile_inner, sync_and_render, apply_rendered, after_check,
  ConfigCheck, current, changed, failed,
}

-- The resource that the API server keeps has had `versions`, and those of them that have the
-- remembered generation have the configuration that the instance is for. A new instance remembers the
-- generation of the version that it is made for.
abbrev pub IsAccepted : Hasher → List ManagedResource → State → Type 0
IsAccepted hasher versions st =
    All
      (λ v.
        (v.generation ≢ st.config_generation)
        ⊎ (config_hash_for_managed_resource hasher v ≡ ok st.config_hash))
      versions

-- The hash is one of the spec.
config_hash_for_managed_resource_same :
    (hasher : Hasher) (v w : ManagedResource)
    → v.spec ≡ w.spec
    → config_hash_for_managed_resource hasher v ≡ config_hash_for_managed_resource hasher w
unfolding config_hash_for_managed_resource
config_hash_for_managed_resource_same hasher v w same = rw same refl

module _ (U : Unstructured) {S : Type 0} (env : Env U S) (versions : List ManagedResource) where
  accepted_version :
      (st : State) (vs : List ManagedResource) (mr : ManagedResource)
      → IsAccepted env.hasher vs st
      → Listed mr vs
      → (mr.generation ≢ st.config_generation)
        ⊎ (config_hash_for_managed_resource env.hasher mr ≡ ok st.config_hash)
  accepted_version st [] mr a x = elim x [ ]
  accepted_version st (v ∷ vs) mr (a, as') (inl same) =
      subst
        (λ y.
          (y.generation ≢ st.config_generation)
          ⊎ (config_hash_for_managed_resource env.hasher y ≡ ok st.config_hash))
        same a
  accepted_version st (v ∷ vs) mr (a, as') (inr later) = accepted_version st vs mr as' later

  check_config-changed :
      (st : State) (mr : ManagedResource) (hash : String)
      → IsAccepted env.hasher versions st
      → Listed mr versions
      → config_hash_for_managed_resource env.hasher mr ≡ ok hash
      → hash ≢ st.config_hash
      → check_config st mr (config_hash_for_managed_resource env.hasher mr) ≡ changed
  unfolding check_config
  check_config-changed st mr hash a listed found other =
      ground (arith, accepted_version st versions mr a listed, eq_iff st.config_hash hash)

  -- Where none of the resource's versions has the generation that the instance remembers but those
  -- with the instance's hash, and the resource is read in one of the versions, is not being deleted
  -- and has a configuration with another hash, a reconciliation changes neither the instance nor
  -- the cluster and ends without an error.
  pub reconcile_inner-changed :
      (ti : TriggerInfo) (st : State) (s : S) (mr : ManagedResource) (hash : String)
      → IsAccepted env.hasher versions st
      → Listed mr versions
      → env.get_managed_resource ≡ ok mr
      → mr.deleting ≡ false
      → config_hash_for_managed_resource env.hasher mr ≡ ok hash
      → hash ≢ st.config_hash
      → reconcile_inner U env ti st s ≡ (ok done, st, s)
  unfolding reconcile_inner
  reconcile_inner-changed ti st s mr hash a listed there kept found other =
      ground (arith, check_config-changed st mr hash a listed found other)

module _ (U : Unstructured) {S : Type 0} (env : Env U S) (versions : List ManagedResource)
    (numbered : (v w : ManagedResource)
      → Listed v versions
      → Listed w versions
      → v.generation ≡ w.generation
      → v.spec ≡ w.spec) where
  -- The state that remembers the generation of a version of the same hash.
  remembered-IsAccepted :
      (st : State) (mr : ManagedResource)
      → Listed mr versions
      → config_hash_for_managed_resource env.hasher mr ≡ ok st.config_hash
      → IsAccepted env.hasher versions (record st { config_generation = mr.generation })
  remembered-IsAccepted st mr listed found =
      All-of_Listed
        (λ v.
          (v.generation ≢ mr.generation)
          ⊎ (config_hash_for_managed_resource env.hasher v ≡ ok st.config_hash))
        versions
        (λ v there. elim (Bool-cases (num_eq v.generation mr.generation)) [
          | inl same ↦ inr (
              config_hash_for_managed_resource_same env.hasher v mr
                (numbered v mr there listed (ground arith))
              ∙ found)
          | inr apart ↦ inl (λ e. ground arith)
        ])

  current_kept :
      (st st' : State)
      → IsAccepted env.hasher versions st
      → current st ≡ current st'
      → IsAccepted env.hasher versions st' × (st'.config_hash ≡ st.config_hash)
  current_kept st st' a h =
      let same : st ≡ st' = cc in
      subst (λ x. IsAccepted env.hasher versions x × (x.config_hash ≡ st.config_hash)) same
        (a, refl)

  check_config-IsAccepted :
      (st st' : State) (mr : ManagedResource)
      → IsAccepted env.hasher versions st
      → Listed mr versions
      → check_config st mr (config_hash_for_managed_resource env.hasher mr) ≡ current st'
      → IsAccepted env.hasher versions st' × (st'.config_hash ≡ st.config_hash)
  unfolding check_config
  check_config-IsAccepted st st' mr a listed h =
      elim (Bool-cases (num_eq st.config_generation mr.generation)) [
        | inl same ↦
            let st_is : current st ≡ current st' = ground arith in current_kept st st' a st_is
        | inr apart ↦ elim (Result-cases (config_hash_for_managed_resource env.hasher mr)) [
          | inr (c, bad) ↦ ground arith
          | inl (hash, found) ↦ elim (Bool-cases (st.config_hash == hash)) [
            | inr other ↦ ground arith
            | inl match ↦
                let same_hash : hash ≡ st.config_hash =
                  sym ((eq_iff st.config_hash hash).0 match) in
                let st_is : current (record st { config_generation = mr.generation })
                    ≡ current st' =
                  ground arith in
                let (kept, hash_kept) =
                  current_kept (record st { config_generation = mr.generation }) st'
                    (remembered-IsAccepted st mr listed (found ∙ ap ok same_hash)) st_is in
                (kept, hash_kept)
          ]
        ]
      ]

  after_check-IsAccepted :
      (check : ConfigCheck) (mr : ManagedResource) (ti : TriggerInfo) (st : State) (s : S)
      → IsAccepted env.hasher versions st
      → Listed mr versions
      → check_config st mr (config_hash_for_managed_resource env.hasher mr) ≡ check
      → IsAccepted env.hasher versions (after_check U env check mr ti st s).1
        × ((after_check U env check mr ti st s).1.config_hash ≡ st.config_hash)
  unfolding after_check
  after_check-IsAccepted (failed c) mr ti st s a listed h = (a, refl)
  after_check-IsAccepted changed mr ti st s a listed h = (a, refl)
  after_check-IsAccepted (current st') mr ti st s a listed h =
      check_config-IsAccepted st st' mr a listed h

  -- Where versions of the resource with the same generation have the same spec, what is read is one
  -- of the versions, and none of them has the generation that the instance remembers but those with
  -- the instance's hash, a reconciliation keeps the hash and this.
  pub reconcile_inner-IsAccepted :
      (ti : TriggerInfo) (st : State) (s : S)
      → ((mr : ManagedResource) → env.get_managed_resource ≡ ok mr → Listed mr versions)
      → IsAccepted env.hasher versions st
      → IsAccepted env.hasher versions (reconcile_inner U env ti st s).1
        × ((reconcile_inner U env ti st s).1.config_hash ≡ st.config_hash)
  unfolding reconcile_inner
  reconcile_inner-IsAccepted ti st s reads a = elim (Result-cases env.get_managed_resource) [
    | inr (e, unread) ↦ ground arith
    | inl (mr, there) ↦
        let check = check_config st mr (config_hash_for_managed_resource env.hasher mr) in
        ground (arith, after_check-IsAccepted check mr ti st s a (reads mr there) refl)
  ]

-- The errors under which some of the template's objects may have been written.
abbrev pub MayHaveApplied : ReconcileError → Type 0
MayHaveApplied (typed t d) = t ≡ apply_error
MayHaveApplied (plain e) = ⊥

module _ (U : Unstructured) {S : Type 0} (env : Env U S) where
  apply_rendered_error :
      (mr : ManagedResource) (text : String) (s : S) (e : ReconcileError)
      → (apply_rendered U env mr text s).0 ≡ err e
      → MayHaveApplied e ⊎ ((apply_rendered U env mr text s).1 ≡ s)
  unfolding apply_rendered
  apply_rendered_error mr text s (typed t d) h = ground arith
  apply_rendered_error mr text s (plain x) h = ground arith

  sync_and_render_error :
      (mr : ManagedResource) (ti : TriggerInfo) (s : S) (e : ReconcileError)
      → (sync_and_render U env mr ti s).0 ≡ err e
      → MayHaveApplied e ⊎ ((sync_and_render U env mr ti s).1 ≡ s)
  unfolding sync_and_render
  sync_and_render_error mr ti s e h = elim (Result-cases (env.render mr ti)) [
    | inl (text, made) ↦ ground (arith, apply_rendered_error mr text s e)
    | inr (x, bad) ↦ ground arith
  ]

  after_check_error :
      (check : ConfigCheck) (mr : ManagedResource) (ti : TriggerInfo) (st : State) (s : S)
      (e : ReconcileError)
      → (after_check U env check mr ti st s).0 ≡ err e
      → MayHaveApplied e ⊎ ((after_check U env check mr ti st s).2 ≡ s)
  unfolding after_check
  after_check_error (failed c) mr ti st s e h = inr refl
  after_check_error changed mr ti st s e h = inr refl
  after_check_error (current st') mr ti st s e h = sync_and_render_error mr ti s e h

  -- A reconciliation that fails with any error but an ApplyError leaves the cluster as it was: no
  -- object is written before the whole template is rendered and decoded.
  pub reconcile_inner-untouched :
      (ti : TriggerInfo) (st : State) (s : S) (e : ReconcileError)
      → (reconcile_inner U env ti st s).0 ≡ err e
      → MayHaveApplied e ⊎ ((reconcile_inner U env ti st s).2 ≡ s)
  unfolding reconcile_inner
  reconcile_inner-untouched ti st s e h = elim (Result-cases env.get_managed_resource) [
    | inr (x, unread) ↦ ground arith
    | inl (mr, there) ↦ ground (
      arith,
      after_check_error (check_config st mr (config_hash_for_managed_resource env.hasher mr)) mr ti
          st s e,
    )
  ]
