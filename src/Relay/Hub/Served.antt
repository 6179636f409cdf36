-- ===== src/Relay/Hub/Served.antt =====
-- What the HTTP server of the relay reads from the hub of hub.ts, against what was routed.
use dumbwaystodie.Prelude.{
  ℕ, true, false, none, some, Text, insert, is_some, lookup-insert_self, lookup-erase_self,
  lookup-insert_ne, ◌==◌, nat_eq, list_eq, ◌≡◌, arith,
}
use dumbwaystodie.Protocol.Wire.{editor, WireMessage, AttachmentRef}
use dumbwaystodie.Relay.Hub.{Hub, Connection, is_kind, provider_connection}
use dumbwaystodie.Relay.Hub.Route.{route, route_media_register, route_media_unregister}
use dumbwaystodie.Relay.Hub.Service.{snapshot, lookup_media}

-- The health report says that a provider is there exactly when a question has somebody to go to.
pub snapshot-provider : (h : Hub) → (snapshot h).has_provider ≡ is_some (provider_connection h)
unfolding snapshot provider_connection
snapshot-provider h = ground arith

-- Media that the editor registers is found by its id until the editor takes it back, and media with
-- another id is found as before.
pub media-lookup :
    (now later : ℕ) (c : Connection) (media : AttachmentRef) (h : Hub) (id : Text)
    → is_kind editor c.kind ≡ true
    → (media.id == id) ≡ false
    → let g = route now c (WireMessage.media_register media) h in
      (lookup_media media.id g ≡ some media)
      × (lookup_media id g ≡ lookup_media id h)
      × (lookup_media media.id (route later c (WireMessage.media_unregister media.id) g) ≡ none)
unfolding lookup_media route route_media_register route_media_unregister
media-lookup now later c media h id e ne =
    rw (e, route_media_register, route_media_unregister)
      (
        lookup-insert_self media.id media h.media,
        lookup-insert_ne media.id id media h.media ne,
        lookup-erase_self media.id (insert media.id media h.media),
      )
