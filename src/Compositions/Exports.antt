-- ===== src/Compositions/Exports.antt =====
-- cultureshift/composition_export.py: the image and the JSON text of a stored composition. The store of
-- images, the reading of PNG files and the JSON text are parameters.
use cultureshift.Base.{
  ℕ, String, string_eq, nat_eq, Bool, true, false, ◌&&◌, List, [], ◌∷◌, ◌++◌, Option, none, some,
  ◌==◌, length, ◌≡◌, arith, if◌then◌else◌,
}
use cultureshift.Base.Result.{Result, ok, err}
use cultureshift.Domain.{Uuid}
use cultureshift.Contracts.{CompositionGenerated, canvas_width, canvas_height}
use cultureshift.Repository.State.{RepositoryError, RevisionRecord}
use cultureshift.Repository.State
use cultureshift.Repository.Reads.{get_composition, get_revision}
use cultureshift.Revising.Session.{Failure, technical, World}
use cultureshift.Actions.{Action, ◌>>=◌, give, require, query}

-- `CompositionExportErrorCode`, and an exception that the service does not catch.
pub data CompositionExportError : Type 0 where
  run_not_found composition_unavailable artifact_unavailable uncaught : CompositionExportError

pub record LoadedCompositionArtifact : Type 0 where
  pub artifact_id : Uuid
  pub sha256 : String
  pub size_bytes : ℕ
  pub png_bytes : List ℕ

pub record ExportedComposition : Type 0 where
  pub png_bytes : List ℕ
  pub sha256 : String
  pub size_bytes : ℕ

-- What Pillow reads of an image file that it can decode.
pub record Image : Type 0 where
  pub format : String
  pub width : ℕ
  pub height : ℕ

-- `technical` is an exception that `export_png` catches.
pub record Export (Store : Type 0) : Type 0 where
  pub load : Uuid → Store → Result Failure LoadedCompositionArtifact
  pub read_image : List ℕ → Result Failure Image
  pub dump : CompositionGenerated → List ℕ

pub data ResultVersionNumber : Type 0 where
  first second : ResultVersionNumber

abbrev pub exporting : RepositoryError → CompositionExportError
exporting State.run_not_found = run_not_found
exporting e = uncaught

abbrev revised_composition : Option RevisionRecord → Option CompositionGenerated
revised_composition none = none
revised_composition (some revision) = some revision.composition

module _ {Store : Type 0} where
  abbrev pub find_summary :
      Uuid → ResultVersionNumber → Action CompositionExportError Store (Option CompositionGenerated)
  find_summary run_id first = query exporting (get_composition run_id)
  find_summary run_id second = do
    revision ← query exporting (get_revision run_id)
    give (ok (revised_composition revision))

  -- `_summary`
  unfoldable pub summary :
      Uuid → ResultVersionNumber → Action CompositionExportError Store CompositionGenerated
  summary run_id version = do
    found ← find_summary run_id version
    require found composition_unavailable

-- The artifact is the one that the summary names.
abbrev pub is_intact : CompositionGenerated → LoadedCompositionArtifact → Bool
is_intact m loaded =
    loaded.artifact_id == m.artifact_id
    && loaded.sha256 == m.rendered_sha256
    && loaded.size_bytes == length loaded.png_bytes

abbrev pub has_canvas : Image → Bool
has_canvas image =
    image.format == "PNG" && image.width == canvas_width && image.height == canvas_height

-- What was read is a PNG of the size of the canvas.
abbrev pub is_canvas : Result Failure Image → Bool
is_canvas (ok image) = has_canvas image
is_canvas (err e) = false

-- There is a composition, and the digest is its.
abbrev pub has_digest : String → Result CompositionExportError CompositionGenerated → Bool
has_digest sha (ok m) = m.rendered_sha256 == sha
has_digest sha (err e) = false

abbrev pub from_loading : {A : Type 0} → Result Failure A → Result CompositionExportError A
from_loading (ok a) = ok a
from_loading (err technical) = err artifact_unavailable
from_loading (err e) = err uncaught

abbrev pub unless : Bool → Result CompositionExportError (Unit {0})
unless c = if c then ok tt else err artifact_unavailable

module _ {Store : Type 0} (export : Export Store) where
  abbrev pub load_artifact : Uuid → Action CompositionExportError Store LoadedCompositionArtifact
  load_artifact artifact w = (from_loading (export.load artifact w.store), w)

  unfoldable pub export_png :
      Uuid → ResultVersionNumber → Action CompositionExportError Store ExportedComposition
  export_png run_id version = do
    m ← summary run_id version
    loaded ← load_artifact m.artifact_id
    intact ← give (unless (is_intact m loaded))
    image ← give (from_loading (export.read_image loaded.png_bytes))
    drawn ← give (unless (has_canvas image))
    give (
        ok (record {
          png_bytes = loaded.png_bytes;
          sha256 = loaded.sha256;
          size_bytes = loaded.size_bytes;
        }))

  unfoldable pub export_json :
      Uuid → ResultVersionNumber → Action CompositionExportError Store (List ℕ)
  export_json run_id version = do m ← summary run_id version; give (ok (export.dump m ++ (10 ∷ [])))

  -- When an image is exported, there is a stored composition of that version with its digest, its
  -- size is the number of its bytes, and the reader of images finds a PNG of the size of the canvas.
  pub export_png-intact :
      (run_id : Uuid) (version : ResultVersionNumber) (w : World Store) (e : ExportedComposition)
      → (export_png run_id version w).0 ≡ ok e
      → (has_digest e.sha256 (summary {Store = Store} run_id version w).0 ≡ true)
        × (e.size_bytes ≡ length e.png_bytes)
        × (is_canvas (export.read_image e.png_bytes) ≡ true)
  unfolding export_png
  export_png-intact run_id version w e h = ground arith

  pub export_png-unchanged :
      (run_id : Uuid) (version : ResultVersionNumber) (w : World Store)
      → (export_png run_id version w).1 ≡ (summary {Store = Store} run_id version w).1
  unfolding export_png
  export_png-unchanged run_id version w = ground arith
