-- ===== src/Publish/Tests.antt =====
-- Runs of internal/ingest/whip.go, and its theorem at a concrete one.
use waga_strim.Base.Maps.{text_key, find}
use waga_strim.Publish.{
  release, begin_stop, end_stop, forget, install, previous_of, reserve, admitted, cleaning, current,
  admit, wrong_role, not_sending, clear_previous, already_live,
}
use waga_strim.Publish.World.{
  find_in, resume_in, once_over, put_in_call, look_in, entering, on_call, step, Event, enter, look,
  find_session, resume, put_in, leave, stop, stopped, new_world, run,
}
use waga_strim.Config.Ingests.{matched, resolve_from, resolve}
use waga_strim.Base.{ℕ, ◌≡◌, refl, true, false, none, some, List, [], ◌∷◌, inr}
use waga_strim.Config.{Ingest, Config}
use waga_strim.Config.Load.{new_config}
use waga_strim.Config.Save.{no_ingest}
use waga_strim.Publish.World.Owner.{clean_up_is_exclusive}

abbrev camera : Ingest
camera = record no_ingest { id = "front"; sender_key = "s_1"; receiver_key = "r_1" }

abbrev settings : Config
settings = record new_config { ingests = camera ∷ [] }

abbrev offer : ℕ → Event
offer c = enter c settings "s_1" (some true)

-- A publisher is live, and a second call finds it disconnected and waits for its end.
abbrev replacing_one : List Event
replacing_one =
    offer 0
    ∷ look 0 false
    ∷ put_in 0
    ∷ leave 0
    ∷ offer 1
    ∷ look 1 false
    ∷ find_session 1
    ∷ stop 0
    ∷ resume 1
    ∷ put_in 1
    ∷ []

receiver_key_refused : admit settings "r_1" (some true) ≡ inr wrong_role
unfolding admitted resolve resolve_from matched
receiver_key_refused = refl

receiving_refused : admit settings "s_1" (some false) ≡ inr not_sending
unfolding admitted resolve resolve_from matched
receiving_refused = refl

live : current (run new_world (offer 0 ∷ look 0 false ∷ put_in 0 ∷ [])).server 0 ≡ true
unfolding current step on_call entering admitted resolve resolve_from matched reserve look_in
    clear_previous previous_of put_in_call install text_key
live = refl

connected_stays :
    clear_previous (run new_world (offer 0 ∷ look 0 false ∷ put_in 0 ∷ [])).server "front" true
    ≡ inr already_live
unfolding clear_previous previous_of step on_call entering admitted resolve resolve_from matched
    reserve look_in put_in_call install text_key
connected_stays = refl

still_waiting : (run new_world replacing_one).server.next ≡ 1
unfolding step on_call entering admitted resolve resolve_from matched reserve release look_in
    clear_previous previous_of find_in put_in_call install text_key resume_in once_over begin_stop
    end_stop forget current
still_waiting = refl

cleaning_runs : ((run new_world replacing_one).server.heap 0).once ≡ cleaning true
unfolding step on_call entering admitted resolve resolve_from matched reserve release look_in
    clear_previous previous_of find_in put_in_call install text_key resume_in once_over begin_stop
    end_stop forget current
cleaning_runs = refl

replaced :
    current (run (run new_world replacing_one) (stopped 0 ∷ resume 1 ∷ put_in 1 ∷ [])).server 1
    ≡ true
unfolding step on_call entering admitted resolve resolve_from matched reserve release look_in
    clear_previous previous_of find_in put_in_call install text_key resume_in once_over begin_stop
    end_stop forget current
replaced = refl

-- Two offers at once: the second is refused.
one_offer : (run new_world (offer 0 ∷ offer 1 ∷ [])).calls 1 ≡ none
unfolding step entering admitted resolve resolve_from matched reserve text_key
one_offer = refl

clean_up_is_exclusive_example :
    let s = (run new_world replacing_one).server in
    (find (s.heap 0).ingest_id s.by_ingest ≡ some 0) × (current s 0 ≡ false)
clean_up_is_exclusive_example = clean_up_is_exclusive replacing_one 0 0 cleaning_runs refl
