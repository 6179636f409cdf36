-- ===== src/Panel/Tests.antt =====
-- The theorems about ExtensionState.ts at a panel with one chat.
use dumbwaystodie.Prelude.{none, some, [], ◌∷◌, lit, refl}
use dumbwaystodie.Protocol.Wire.{AttachmentRef, AvailableSurface, SurfaceState, MediaSource}
use dumbwaystodie.Panel.{new_state, set_surfaces, attached, surfaces_told}
use dumbwaystodie.Panel.Choice.{apply_all, CanAnswer, apply_all-CanAnswer}

abbrev attachment : AttachmentRef
attachment = record {
  id = lit "a";
  filename = lit "a.png";
  mime_type = lit "image/png";
  size = 3;
  sha256 = lit "0";
  source = MediaSource.clipboard;
  local_media_path = lit "/a";
}

abbrev surface : SurfaceState → AvailableSurface
surface status = record {
  id = lit "chatgpt";
  surface_type = lit "chatgpt";
  label = lit "ChatGPT";
  status = status;
  detail = none;
}

apply_all-CanAnswer_example : CanAnswer (
    apply_all (attached attachment ∷ surfaces_told (surface SurfaceState.lost ∷ []) ∷ []) (
      set_surfaces
        (surface SurfaceState.ready ∷ [])
        (record new_state { chosen_model = some (lit "chatgpt") })))
apply_all-CanAnswer_example =
    apply_all-CanAnswer (surface SurfaceState.ready ∷ [])
      (attached attachment ∷ surfaces_told (surface SurfaceState.lost ∷ []) ∷ [])
      (record new_state { chosen_model = some (lit "chatgpt") }) (refl, (refl, tt))
