-- ===== src/Trains/Cache.antt =====
-- The seat cache between two requests.
use railbook.Base.{ℕ, String, ◌+◌, ◌<◌, ◌≡◌, some, Option, Option-cases, inl, inr, arith}
use railbook.Base.Outcome.{ok}
use railbook.Models.{Db, seconds}
use railbook.Redis.{Redis, Json, seats}
use railbook.Trains.{SeatAvailability, OrderBy, query, get_seat_availability, invalidate_seat_cache}

module _ (R : Redis) (json : Json SeatAvailability) (order : OrderBy) where
  -- After an invalidation that Redis has carried out, the next request is answered from the tables
  -- as they are then, whatever was cached.
  pub fresh_after_invalidation :
      (db : Db) (schedule_id from to : ℕ) (s : R.State) {s' : R.State}
      → R.delete (seats schedule_id) s ≡ some s'
      → (get_seat_availability R json order db schedule_id
          (some (invalidate_seat_cache R json schedule_id s))
          from
          to).0
        ≡ query order db schedule_id
  unfolding get_seat_availability invalidate_seat_cache
  fresh_after_invalidation db schedule_id from to s {s'} gone =
      elim (Option-cases (R.get from (seats schedule_id) s')) [
        | inl raised ↦ ground (arith, gone)
        | inr (found, answered) ↦ ground (
          arith,
          gone,
          answered,
          R.found-delete from (seats schedule_id) s {s' = s'} {found = found} gone answered,
        )
      ]

  module _ (db : Db) (p : SeatAvailability) (schedule_id now from to : ℕ) (s : R.State)
      {s' : R.State} {found : Option String}
      (stored : R.set now (seats schedule_id) (json.dumps p) 5 s ≡ some s')
      (answered : R.get from (seats schedule_id) s' ≡ some found) where
    -- A payload that Redis has stored, and that reads back from its text, answers a request of the
    -- next five seconds that Redis answers, whatever the tables say by then, and is not stored again.
    pub cached_payload_served :
        json.loads (json.dumps p) ≡ some p
        → from < now + seconds 5
        → get_seat_availability R json order db schedule_id (some s') from to
          ≡ (ok (some p), some s')
    unfolding get_seat_availability
    cached_payload_served reads_back early = ground (
      arith,
      answered,
      R.found-set now from (seats schedule_id) (json.dumps p) 5 s stored answered early,
      reads_back,
      json.dumps_nonempty p,
    )

    -- More than five seconds after it was stored, a payload is not used: the request is answered
    -- from the tables.
    pub expired_payload_dropped :
        now + seconds 5 < from
        → (get_seat_availability R json order db schedule_id (some s') from to).0
          ≡ query order db schedule_id
    unfolding get_seat_availability
    expired_payload_dropped late = ground (
      arith,
      answered,
      R.expired-set now from (seats schedule_id) (json.dumps p) 5 s stored answered late,
    )
