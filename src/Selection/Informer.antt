-- ===== src/Selection/Informer.antt =====
-- wrapNewInformerWithFilter of controllers/managedresource_controller_manager.go: the filter of an
-- informer, on what it lists and on what it watches.
use espejote.Base.{
  String, Bool, true, false, not, List, [], ◌∷◌, ◌≡◌, refl, if◌then◌else◌, Result, wrap, ◌>>=◌,
  arith,
}
use espejote.Kube.{Cause}

-- An object that is a `client.Object`, by its name, or one that is not.
pub data RuntimeObject : Type 0 where
  client_object : String → RuntimeObject
  foreign : RuntimeObject

pub data EventType : Type 0 where
  added modified deleted bookmark error : EventType

pub record Event : Type 0 where
  pub type : EventType
  pub object : RuntimeObject

pub data ListError : Type 0 where
  list_failed not_a_list not_set : Cause → ListError

module _ (f : String → Bool) where
  -- The function given to `watch.Filter`: the event, and whether it is kept.
  unfoldable pub filter_event : Event → Event × Bool
  filter_event e = elim e.object [ client_object name ↦ (e, f name) | foreign ↦ (e, true) ]

  -- The predicate of `slices.DeleteFunc`.
  abbrev pub is_deleted : RuntimeObject → Bool
  is_deleted (client_object name) = not (f name)
  is_deleted foreign = false

  pub delete_func : List RuntimeObject → List RuntimeObject
  delete_func [] = []
  delete_func (o ∷ os) = let rest = delete_func os in if is_deleted o then rest else o ∷ rest

  -- `List` is the type of a list object; the library's calls that take it apart may fail.
  unfoldable pub list_func :
      {List' : Type 0}
      → Result Cause List'
      → (List' → Result Cause (List RuntimeObject))
      → (List' → List RuntimeObject → Result Cause List')
      → Result ListError List'
  unfolding delete_func
  list_func listed extract_list set_list = do
    list ← wrap list_failed listed
    items ← wrap not_a_list (extract_list list)
    wrap not_set (set_list list (delete_func items))

  -- What is left of the events of one type, an event to an object.
  abbrev pub watched : EventType → List RuntimeObject → List RuntimeObject
  watched t [] = []
  watched t (o ∷ os) =
      let r = filter_event (record { type = t; object = o }) in
      let rest = watched t os in if r.1 then r.0.object ∷ rest else rest

  -- The informer lists an object exactly if the object's events pass the watch, whatever their
  -- type, and in the same order; an event that passes keeps its object.
  pub delete_func-watched :
      (t : EventType) (os : List RuntimeObject) → delete_func os ≡ watched t os
  unfolding delete_func filter_event
  delete_func-watched t [] = refl
  delete_func-watched t (client_object name ∷ os) = ground (arith, delete_func-watched t os)
  delete_func-watched t (foreign ∷ os) = ground (arith, delete_func-watched t os)
