-- ===== src/Cli/Commands/RoundTrip.antt =====
-- A collected input, rendered from its file, gives what rendering from the cluster gives.
use mathlib.Core.Path.{subst}
use espejote.Base.{
  String, Option, none, List, [], ◌∷◌, ◌≡◌, refl, sym, ◌∙◌, ap, arith, inl, inr, Result, ok,
  ok_injective, Result-cases, Option-cases,
}
use espejote.Base.Text.{Text}
use espejote.Kube.{Unstructured, Cause, ApiError}
use espejote.Api.{ManagedResource}
use espejote.Importer.{Library, Importer}
use espejote.Importer.Cache.{Store}
use espejote.Renderer.{TriggerInfo, Readers, RenderError}
use espejote.Renderer.Nodes.{Value, Values}
use espejote.Cli.{RenderInput, context_table, render_triggers_of, render_from_input}
use espejote.Cli.Collect.{CollectError}
use espejote.Cli.Libraries.{libraries_of}
use espejote.Cli.Live.{Engine, render_from_memory}
use espejote.Cli.Live.Replayed.{input_replayed}
use espejote.Cli.Commands.{
  CommandError, in_namespace, render_inputs, render_from_input_files, collected_input,
  rendered_live, render_from_cluster, collect_command,
}

-- The flag changes no more than the namespace.
in_namespace_spec : (flag : String) (mr : ManagedResource) → (in_namespace flag mr).spec ≡ mr.spec
unfolding in_namespace
in_namespace_spec flag mr = ground arith

module _ (U : Unstructured) (content : U.Object → Value)
    (set_list : List U.Object → Result ApiError Values)
    (print : TriggerInfo → String → Result Cause (List String)) where
  module _
      (render_mem : List (Text × Text)
        → Readers
        → Readers
        → ManagedResource
        → TriggerInfo
        → Result RenderError String)
      (combine : List Cause → Option Cause) where
    -- A file that is loaded is rendered behind an input without triggers, which writes nothing.
    render_one_file :
        (mr : ManagedResource) (input : RenderInput U.Object) (out : List String)
        → combine [] ≡ none
        → (render_from_input U content set_list (render_mem input.libraries) print mr input out).0
          ≡ none
        → render_from_input_files U content set_list print render_mem combine mr (ok input ∷ []) out
          ≡ (
            none,
            (render_from_input U content set_list
                (render_mem input.libraries)
                print
                mr
                input
                out).1,
          )
    unfolding render_from_input_files render_inputs render_from_input render_triggers_of
        context_table
    render_one_file mr input out no_errors h = ground arith

  module _ (combine : List Cause → Option Cause) (rest_config new_client : Result {0, 0} Cause Unit)
      (collect : ManagedResource → Result CollectError (RenderInput U.Object))
      (get : String → Text → Result ApiError Library) (library_namespace : String)
      (embedded empty : Text) (en : Engine) where
    -- Rendering from the cluster ends without an error, and the file of the input gives the same.
    abbrev pub RendersSame : String → ManagedResource → List String → RenderInput U.Object → Type 0
    RendersSame flag mr out input =
        let live =
          render_from_cluster U content set_list print rest_config new_client collect get
            library_namespace embedded empty en flag mr out in
        (live.0 ≡ none)
        × (render_from_input_files U content set_list print (render_from_memory embedded en) combine
              mr (ok input ∷ []) out
            ≡ live)

    saved_same :
        (flag : String) (mr : ManagedResource) (live : RenderInput U.Object)
        (first out out' : List String) (cache : Store)
        → collected_input U content set_list print rest_config new_client collect get
            library_namespace embedded empty en
            (in_namespace flag mr)
          ≡ ok live
        → rendered_live U content set_list print rest_config new_client collect get
            library_namespace embedded empty en
            (in_namespace flag mr)
            live
            first
          ≡ (none, out', cache)
        → combine [] ≡ none
        → RendersSame flag mr out (record live { libraries = libraries_of empty cache })
    unfolding render_from_cluster
    saved_same flag mr live first out out' cache made ran no_errors =
        let mr' = in_namespace flag mr in
        let im : Importer = record {
          namespace = mr'.namespace;
          library_namespace = library_namespace;
        } in
        let input : RenderInput U.Object = record live { libraries = libraries_of empty cache } in
        let (written, again, memory) =
          input_replayed get im embedded empty U content set_list en print mr' mr live out first
            out' cache (in_namespace_spec flag mr) ran in
        let file =
          render_one_file (render_from_memory embedded en) combine mr input out no_errors
            (ap (λ p. p.0) memory) in
        let cluster : render_from_cluster U content set_list print rest_config new_client collect
              get library_namespace embedded empty en flag mr out
            ≡ (none, written) =
          rw (made, again, render_from_cluster) refl in
        (ap (λ p. p.0) cluster, file ∙ (λ i. (none, (memory i).1)) ∙ sym cluster)

    -- Where collecting ends with an input, with a Jsonnet VM that hangs on nothing but what its
    -- imports give, and multierr.Combine gives no error for no errors, rendering from the cluster
    -- ends without an error, and rendering from a file that has the input ends and writes the same.
    pub collect_command-files :
        (flag : String) (mr : ManagedResource) (input : RenderInput U.Object) (out : List String)
        → collect_command U content set_list print rest_config new_client collect get
            library_namespace embedded empty en flag mr
          ≡ ok input
        → combine [] ≡ none
        → RendersSame flag mr out input
    unfolding collect_command
    collect_command-files flag mr input out h no_errors =
        let mr' = in_namespace flag mr in
        elim (Result-cases (
          collected_input U content set_list print rest_config new_client collect get
            library_namespace embedded empty en mr')) [
              | inr (e, failed) ↦ absurd (ground arith)
              | inl (live, made) ↦
                  let ran =
                    rendered_live U content set_list print rest_config new_client collect get
                      library_namespace embedded empty en mr' live [] in
                  elim (Option-cases ran.0) [
                    | inr (e, failed) ↦ absurd (ground arith)
                    | inl fine ↦
                        let saved : Result CommandError (RenderInput U.Object) =
                          ok (record live { libraries = libraries_of empty ran.2 }) in
                        let done : saved ≡ ok input = ground arith in
                        subst (RendersSame flag mr out) (ok_injective done) (
                          saved_same flag mr live [] out ran.1 ran.2 made
                            (λ i. (fine i, ran.1, ran.2)) no_errors)
                  ]
            ]
