-- ===== src/Endpoint/ListEvents/Listed.antt =====
-- What `ListHandler` of `src/app/endpoint/event.rs` lists.
use event.Base.{
  ℕ, zero, suc, [], ◌∷◌, ◌≤◌, ◌≡◌, refl, subst, true, Option, some, List, All, length, Result, ok,
  String, arith,
}
use event.Db.{Uuid, AccountId}
use event.Db.Event
use event.Db.Event.Queries.{matches, list_rows, list_events, from_rows, precedes}
use event.Db.Event.Raw.{RawObject}
use event.Db.Event.SetState.Returns.{from_rows-length, take_first-le}
use event.Db.Queries.Laws.{events_of-ok}
use event.Db.Room
use event.Db.Room.Queries as RoomQueries
use event.Db.Rows.{select, order_by, take_first}
use event.Db.Rows.Order.{All-select, All-order_by}
use event.Db.Session.{Tables, World, Session, lift}
use event.Db.Session.Returns.{>>=-Returns, lift-Returns}
use event.RoomTime.{DateTime}
use event.Endpoint.CreateEvent.{AuthzRequest, wrap_authz, or_default}
use event.Endpoint.CreateEvent.Authorized.{wrap_authz-ok}
use event.Endpoint.Helpers.{any, db_query_failed, find_room, get_conn}
use event.Endpoint.Helpers.Found.{find_room-Returns, find_room-id, get_conn-Returns}
use event.Endpoint.ListEvents.{ListPayload, min, list_query, handle}
use event.Endpoint.ReadState.{read_request}

All-take_first :
    {A : Type 0} (P : A → Type 0) (n : ℕ) (es : List A) → All P es → All P (take_first n es)
unfolding take_first
All-take_first P zero es h = tt
All-take_first P (suc n) [] h = tt
All-take_first P (suc n) (e ∷ es) (h, hs) = (h, All-take_first P n es hs)

module _ {X V' B : Type 0} (to_string : Uuid → String)
    (authorize : AuthzRequest → Result {0} X Unit) (into_json : B → Option V') where
  -- The room is in the tables, its classroom may be read by the account, and the events are those
  -- that the query of the room and the payload lists.
  abbrev pub Lists : Uuid → ListPayload → AccountId → Tables V' B → List (Event.Object V') → Type 0
  Lists room_id payload account_id t events =
      (room : Room.Object V') × (RoomQueries.find_room room_id t.rooms ≡ some room)
      × (authorize (read_request to_string room account_id) ≡ ok tt)
      × (list_events into_json (list_query room_id payload) t.events ≡ ok events)

  handle-Lists :
      (now : DateTime) (room_id : Uuid) (payload : ListPayload) (account_id : AccountId) (w : World)
      (s s' : Session V' B) (events : List (Event.Object V'))
      → handle to_string authorize into_json now room_id payload account_id w s ≡ (ok events, s')
      → (s'.tables ≡ s.tables) × Lists room_id payload account_id s'.tables events
  unfolding handle
  handle-Lists now room_id payload account_id w s s' events e =
      >>=-Returns (λ t. t ≡ s.tables) _
        (λ events t. (t ≡ s.tables) × Lists room_id payload account_id t events)
        (find_room room_id any now) _ (find_room-Returns (λ t. t ≡ s.tables) room_id any now)
        (λ room.
          >>=-Returns _
            (λ _ t.
              (t ≡ s.tables)
              × (RoomQueries.find_room room_id t.rooms ≡ some room)
              × (authorize (read_request to_string room account_id) ≡ ok tt))
            _ (lift (wrap_authz (authorize (read_request to_string room account_id)))) _
            (lift-Returns _ _ (wrap_authz (authorize (read_request to_string room account_id)))
              (λ u t p k. (p.0, p.1, wrap_authz-ok _ u k)))
            (λ _. >>=-Returns _ _ _ get_conn _ (get_conn-Returns _) (λ _ w1 s1 events s2 p k.
              let (listed, kept) =
                events_of-ok (λ e. db_query_failed) into_json (list_query room.id payload) w1 s1 s2
                  k in
              let q =
                subst
                  (λ t.
                    (t ≡ s.tables)
                    × (RoomQueries.find_room room_id t.rooms ≡ some room)
                    × (authorize (read_request to_string room account_id) ≡ ok tt))
                  kept p in
              let listed' =
                subst (λ t. list_events into_json (list_query room.id payload) t.events ≡ ok events)
                  kept listed in
              (
                q.0,
                (
                  room,
                  q.1,
                  q.2,
                  subst
                      (λ i.
                        list_events into_json (list_query i payload) s2.tables.events ≡ ok events)
                      (find_room-id room_id s2.tables.rooms room q.1) listed',
                ),
              ))))
        w s events s' refl e

  -- If the handler answers, the tables are as they were, the authorization service has granted the
  -- account to read the classroom of the room, there are 100 events at most, or as many as were
  -- asked for if that is less, and each is an event of the room that is not deleted and passes the
  -- filters of the request.
  pub handle-Lists_rows :
      (now : DateTime) (room_id : Uuid) (payload : ListPayload) (account_id : AccountId) (w : World)
      (s s' : Session V' B) (events : List (Event.Object V'))
      → handle to_string authorize into_json now room_id payload account_id w s ≡ (ok events, s')
      → (s'.tables ≡ s.tables)
        × ((room : Room.Object V') × (RoomQueries.find_room room_id s.tables.rooms ≡ some room)
            × (authorize (read_request to_string room account_id) ≡ ok tt))
        × (length events ≤ 100)
        × (length events ≤ or_default payload.limit 100)
        × ((rows : List (RawObject V' B)) × (from_rows into_json rows ≡ ok events)
            × All (λ e. matches (list_query room_id payload) e ≡ true) rows)
  unfolding list_events list_rows list_query
  handle-Lists_rows now room_id payload account_id w s s' events e =
      let (same, (room, found, granted, listed)) =
        handle-Lists now room_id payload account_id w s s' events e in
      let ordered =
        order_by (precedes payload.direction)
          (select (matches (list_query room_id payload)) s'.tables.events) in
      let rows = list_rows (list_query room_id payload) s'.tables.events in
      let count = from_rows-length into_json rows events listed in
      let most = take_first-le (min (or_default payload.limit 100) 100) ordered in
      (
        same,
        (
          room,
          subst (λ (t : Tables V' B). RoomQueries.find_room room_id t.rooms ≡ some room) same found,
          granted,
        ),
        ground (arith, count, most),
        ground (arith, count, most),
        (
          rows,
          listed,
          All-take_first _ _ ordered (
              All-order_by _ _ _
                (All-select _ (matches (list_query room_id payload)) s'.tables.events (λ e h. h))),
        ),
      )
