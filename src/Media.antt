-- ===== src/Media.antt =====
-- Files that a user attaches, packages/extension/src/media/MediaRegistry.ts. The file system is a map
-- from paths to what lies there, and the index file, which is JSON text in the code, is the list of
-- its items. The functions of node:path and the digest are parameters. A write is taken to succeed.
-- A method is one step from its call to its end: a call that comes while another one waits for the
-- disk is not modelled.
pub mod Index
pub mod Held
pub mod Reload
pub mod Register
mod Tests
use dumbwaystodie.Prelude.{
  ℕ, suc, ◌+◌, ◌*◌, Bool, true, false, not, Option, none, some, List, [], ◌∷◌, ◌++◌, map, Text, lit,
  join, find, take, length, decimal, if◌then◌else◌, ltb, nat_beq, ◌==◌, nat_eq, list_eq, Map,
  lookup, insert, erase, has,
}
use dumbwaystodie.Protocol.Wire.{AttachmentRef, MediaSource, ToolErrorCode, ToolError}
use dumbwaystodie.Secrets.{to_lower}

-- An `AttachmentRef` with its `registeredAt`, here in milliseconds.
pub record Item : Type 0 where
  pub attachment : AttachmentRef
  pub registered_at : ℕ

pub data Entry : Type 0 where
  regular : Text → Entry
  special : Entry

-- The registry of a window, and what is on disk.
pub record Media : Type 0 where
  pub items : Map Text Item
  pub loaded : Bool
  pub files : Map Text Entry
  pub index : Option (List Item)

pub data Registered : Type 0 where
  refused : ToolError → Registered
  registered : AttachmentRef → Registered

-- node:path, node:crypto, `toLowerCase` beyond ASCII, and the options.
pub record MediaHost : Type 0 where
  pub fold : ℕ → Text
  pub extname : Text → Text
  pub basename : Text → Text
  pub join_path : Text → Text → Text
  pub digest : Text → Text
  pub media_dir : Text
  pub max_bytes : Option ℕ

abbrev mime_by_extension : Map Text Text
mime_by_extension =
    (lit ".png", lit "image/png")
    ∷ (lit ".jpg", lit "image/jpeg")
    ∷ (lit ".jpeg", lit "image/jpeg")
    ∷ (lit ".webp", lit "image/webp")
    ∷ (lit ".gif", lit "image/gif")
    ∷ (lit ".pdf", lit "application/pdf")
    ∷ (lit ".txt", lit "text/plain")
    ∷ (lit ".md", lit "text/markdown")
    ∷ (lit ".json", lit "application/json")
    ∷ (lit ".csv", lit "text/csv")
    ∷ []

abbrev default_max_media_bytes : ℕ
default_max_media_bytes = 20 * 1024 * 1024

abbrev first_key : Text × Text → Text
first_key (k, v) = k

abbrev supported_extensions : List Text
supported_extensions = map first_key mime_by_extension

abbrev pub exists : Media → Text → Bool
exists s path = has path s.files

-- `this.items.set` for each entry of the index whose file is there.
unfoldable pub load_items : (Text → Bool) → Map Text Item → List Item → Map Text Item
load_items present items [] = items
load_items present items (i ∷ is) =
    load_items present
      (if present i.attachment.local_media_path then insert i.attachment.id i items else items) is

abbrev pub index_items : Option (List Item) → List Item
index_items none = []
index_items (some is) = is

unfoldable pub load : Media → Media
load s =
    if s.loaded
    then s
    else record s { loaded = true; items = load_items (exists s) s.items (index_items s.index) }

abbrev pub value : Text × Item → Item
value (k, i) = i

abbrev pub values : Map Text Item → List Item
values m = map value m

abbrev attachment_of : Item → AttachmentRef
attachment_of i = i.attachment

unfoldable pub list : Media → List AttachmentRef
list s = map attachment_of (values s.items)

abbrev pub attachment_found : Option Item → Option AttachmentRef
attachment_found none = none
attachment_found (some i) = some i.attachment

unfoldable pub get : Text → Media → Option AttachmentRef
get id s = attachment_found (lookup id s.items)

abbrev pub persist : Media → Media
persist s = record s { index = some (values s.items) }

abbrev pub removed_one : Text → Media → Option Item → Bool × Media
removed_one id s none = (false, s)
removed_one id s (some i) = (
  true,
  persist
      (record s { items = erase id s.items; files = erase i.attachment.local_media_path s.files }),
)

unfoldable pub remove : Text → Media → Bool × Media
unfolding load
remove id s0 = let s = load s0 in removed_one id s (lookup id s.items)

-- Older than so many days: `registeredAt < now - days`, without the subtraction.
abbrev pub is_old : ℕ → ℕ → Item → Bool
is_old now days i = ltb (i.registered_at + days * 24 * 60 * 60 * 1000) now

-- The loop of `cleanup` over a copy of the items.
unfoldable pub remove_old : ℕ → ℕ → List Item → ℕ × Media → ℕ × Media
remove_old now days [] c = c
remove_old now days (i ∷ is) (removed, s) = remove_old now days is (
    if is_old now days i
    then (
      suc removed,
      record s {
        items = erase i.attachment.id s.items;
        files = erase i.attachment.local_media_path s.files;
      },
    )
    else (removed, s))

abbrev pub cleaned : ℕ × Media → ℕ × Media
cleaned (removed, s) = if nat_beq removed 0 then (removed, s) else (removed, persist s)

unfoldable pub cleanup : ℕ → ℕ → Media → ℕ × Media
unfolding load remove_old
cleanup now days s0 = let s = load s0 in cleaned (remove_old now days (values s.items) (0, s))

module _ (h : MediaHost) where
  abbrev pub extension : Text → Text
  extension path = to_lower h.fold (h.extname path)

  unfoldable pub mime_type_for : Text → Option Text
  unfolding to_lower
  mime_type_for path = lookup (extension path) mime_by_extension

  abbrev pub limit_of : Option ℕ → ℕ
  limit_of none = default_max_media_bytes
  limit_of (some n) = n

  abbrev pub refuse : ToolErrorCode → Text → Registered
  refuse code message = refused (record { code = code; message = message; details = none })

  abbrev pub media_id : Text → Text
  media_id sha256 = lit "media_" ++ take 12 sha256

  -- The new item, and the copy of its bytes.
  abbrev pub new_item : ℕ → Text → Text → MediaSource → Text → Item
  new_item now path mime_type source bytes =
      let sha256 = h.digest bytes in
      record {
        attachment = record {
          id = media_id sha256;
          filename = h.basename path;
          mime_type = mime_type;
          size = length bytes;
          sha256 = sha256;
          source = source;
          local_media_path = h.join_path h.media_dir (media_id sha256 ++ extension path);
        };
        registered_at = now;
      }

  abbrev pub add_copy : Item → Text → Media → Registered × Media
  add_copy i bytes s = (
    registered i.attachment,
    persist (record s {
      files = insert i.attachment.local_media_path (regular bytes) s.files;
      items = insert i.attachment.id i s.items;
    }),
  )

  abbrev pub has_digest : Text → Item → Bool
  has_digest sha256 i = i.attachment.sha256 == sha256

  abbrev pub add_unless : Item → Text → Media → Option Item → Registered × Media
  add_unless new bytes s none = add_copy new bytes s
  add_unless new bytes s (some old) =
      if exists s old.attachment.local_media_path
      then (registered old.attachment, s)
      else add_copy new bytes s

  -- What is done with the bytes that were read.
  abbrev pub store_bytes : ℕ → Text → Text → MediaSource → Text → Media → Registered × Media
  store_bytes now path mime_type source bytes s =
      add_unless (new_item now path mime_type source bytes) bytes s
        (find (has_digest (h.digest bytes)) (values s.items))

  abbrev pub register_entry :
      ℕ → Text → Text → MediaSource → Media → Option Entry → Registered × Media
  register_entry now path mime_type source s none =
      (refuse ToolErrorCode.not_found (lit "File not found: " ++ path), s)
  register_entry now path mime_type source s (some special) =
      (refuse ToolErrorCode.invalid_argument (lit "Only regular files can be attached."), s)
  register_entry now path mime_type source s (some (regular bytes)) =
      if ltb (limit_of h.max_bytes) (length bytes)
      then (
        refuse ToolErrorCode.too_large (
            h.basename path
            ++ lit " is "
            ++ decimal (length bytes)
            ++ lit " bytes, over the "
            ++ decimal (limit_of h.max_bytes)
            ++ lit " byte limit."),
        s,
      )
      else store_bytes now path mime_type source bytes s

  abbrev named : Text → Text
  named [] = lit "(none)"
  named (c ∷ t) = c ∷ t

  abbrev pub register_typed : ℕ → Text → MediaSource → Media → Option Text → Registered × Media
  register_typed now path source s none = (
    refuse ToolErrorCode.unsupported (
        lit "Unsupported file type \""
        ++ named (h.extname path)
        ++ lit "\". Supported: "
        ++ join (lit ", ") supported_extensions
        ++ lit "."),
    s,
  )
  register_typed now path source s (some mime_type) =
      register_entry now path mime_type source s (lookup path s.files)

  unfoldable pub register : ℕ → Text → MediaSource → Media → Registered × Media
  unfolding load mime_type_for
  register now path source s0 =
      let s = load s0 in register_typed now path source s (mime_type_for path)
