-- ===== src/Manager/Ensuring.antt =====
-- What asking for an instance comes to, for a resource with a hash.
use espejote.Base.{String, true, false, none, some, ◌≡◌, refl, ap, ◌==◌, ok}
use espejote.Kube.{NamespacedName}
use espejote.Api.{ManagedResource}
use espejote.Manager.Keyed.{lookup, delete, cancel}
use espejote.Manager.{
  State, ResourceController, key_of, start_controller, stop_and_remove_controller_for,
  config_hash_for_managed_resource, current_for, ensure_instance_controller_for,
}
use espejote.Manager.Spec.{Request}

module _ {C : Type 0} where
  stop_absent :
      (key : NamespacedName) (st : State C)
      → lookup key st.controllers ≡ none
      → stop_and_remove_controller_for key st ≡ st
  unfolding stop_and_remove_controller_for
  stop_absent key st absent = rw (absent, stop_and_remove_controller_for) refl

  stop_there :
      (key : NamespacedName) (st : State C) (rc : ResourceController C)
      → lookup key st.controllers ≡ some rc
      → stop_and_remove_controller_for key st
        ≡ record st { live = cancel rc.lifetime st.live; controllers = delete key st.controllers }
  unfolding stop_and_remove_controller_for
  stop_there key st rc there = rw (there, stop_and_remove_controller_for) refl

  -- What Reconcile asks for where the resource has a hash.
  pub ensured_current :
      (r : Request C) (mr : ManagedResource) (hash : String) (st : State C)
      (rc : ResourceController C)
      → config_hash_for_managed_resource r.env.hasher mr ≡ ok hash
      → lookup (key_of mr) st.controllers ≡ some rc
      → (rc.config_hash == hash) ≡ true
      → ensure_instance_controller_for r.env mr st ≡ (ok rc, st)
  unfolding ensure_instance_controller_for current_for
  ensured_current r mr hash st rc hashed there same =
      rw (hashed, there, same, ensure_instance_controller_for, current_for) refl

  pub ensured_absent :
      (r : Request C) (mr : ManagedResource) (hash : String) (st : State C)
      → config_hash_for_managed_resource r.env.hasher mr ≡ ok hash
      → lookup (key_of mr) st.controllers ≡ none
      → ensure_instance_controller_for r.env mr st ≡ start_controller r.env mr hash st
  unfolding ensure_instance_controller_for current_for
  ensured_absent r mr hash st hashed absent =
      rw (hashed, absent, ensure_instance_controller_for, current_for)
        (ap (start_controller r.env mr hash) (stop_absent (key_of mr) st absent))

  pub ensured_changed :
      (r : Request C) (mr : ManagedResource) (hash : String) (st : State C)
      (rc : ResourceController C)
      → config_hash_for_managed_resource r.env.hasher mr ≡ ok hash
      → lookup (key_of mr) st.controllers ≡ some rc
      → (rc.config_hash == hash) ≡ false
      → ensure_instance_controller_for r.env mr st
        ≡ start_controller r.env mr hash (record st {
          live = cancel rc.lifetime st.live;
          controllers = delete (key_of mr) st.controllers;
        })
  unfolding ensure_instance_controller_for current_for
  ensured_changed r mr hash st rc hashed there changed =
      rw (hashed, there, changed, ensure_instance_controller_for, current_for)
        (ap (start_controller r.env mr hash) (stop_there (key_of mr) st rc there))
