-- ===== src/Media/Tests.antt =====
-- The theorems about MediaRegistry.ts at a folder with two copies of a picture.
use dumbwaystodie.Prelude.{
  List, nat_eq, list_eq, none, some, [], ◌∷◌, ◌++◌, Text, lit, Map, lookup, insert, length, ◌≤◌,
  ◌≡◌, refl,
}
use dumbwaystodie.Protocol.Wire.{AttachmentRef, MediaSource}
use dumbwaystodie.Secrets.{to_lower}
use dumbwaystodie.Media.{
  Entry, regular, registered, MediaHost, exists, get, load, load_items, attachment_found,
  mime_type_for, register, limit_of,
}
use dumbwaystodie.Media.Index.{present_item}
use dumbwaystodie.Media.Reload.{
  MediaEvent, registering, reopen, perform, perform_all, fresh, reload-perform_all,
}
use dumbwaystodie.Media.Register.{IsKept, register-IsKept}

abbrev host : MediaHost
host = record {
  fold = λ c. c ∷ [];
  extname = λ path. lit ".png";
  basename = λ path. path;
  join_path = λ folder name. folder ++ lit "/" ++ name;
  digest = λ bytes. bytes;
  media_dir = lit "m";
  max_bytes = none;
}

abbrev pictures : Map Text Entry
pictures = (lit "a.png", regular (lit "pixels")) ∷ (lit "b.png", regular (lit "pixels")) ∷ []

abbrev attachment : AttachmentRef
attachment = record {
  id = lit "media_pixels";
  filename = lit "a.png";
  mime_type = lit "image/png";
  size = 6;
  sha256 = lit "pixels";
  source = MediaSource.clipboard;
  local_media_path = lit "m/media_pixels.png";
}

abbrev attached : List MediaEvent
attached = registering 7 (lit "a.png") MediaSource.clipboard ∷ []

-- The second copy is the first one's attachment.
shared :
    (register host 8
      (lit "b.png")
      MediaSource.clipboard
      (perform_all host attached (fresh pictures))).0
    ≡ registered attachment
unfolding register perform_all perform mime_type_for load load_items to_lower lookup insert
shared = refl

register-IsKept_example :
    (bytes : Text) × (lookup (lit "b.png") (perform_all host attached (fresh pictures)).files
      ≡ some (regular bytes))
    × (length bytes ≤ limit_of host none)
    × IsKept host bytes attachment
        (load (perform_all host attached (fresh pictures)))
        (register host 8
          (lit "b.png")
          MediaSource.clipboard
          (perform_all host attached (fresh pictures))).1
register-IsKept_example =
    register-IsKept host pictures attached 8 (lit "b.png") MediaSource.clipboard attachment shared

reload-perform_all_example :
    get (lit "media_pixels") (load (reopen (perform_all host attached (fresh pictures))))
    ≡ attachment_found (
        present_item
          (exists (perform_all host attached (fresh pictures)))
          (lookup (lit "media_pixels") (load (perform_all host attached (fresh pictures))).items))
reload-perform_all_example = reload-perform_all host pictures attached (lit "media_pixels")
