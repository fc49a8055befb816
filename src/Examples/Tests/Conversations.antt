-- ===== src/Examples/Tests/Conversations.antt =====
-- The sessions of the examples over the connection of the test of the program's session.
use bc.Prelude.{◌≡◌, ◌++◌, true, refl, List, [], ◌∷◌, Bytes, codes, ok, err, assertion, map, joined}
use bc.Utils.Error.{report, message, find_case, number}
use bc.Utils.Expected.{get_error}
use bc.Network.Echo.Course.{Course}
use bc.Async.Poller.{Event, read_event, write_event, hangup_event}
use bc.Network.Awaiters.{resume_read, resume_write}
use bc.Network.Echo.{session, on_read, on_written}
use bc.Network.Tests.Echo.{wire, sock, line, talk}
use bc.Examples.Sessions.{
  Line, example_session, on_request, on_answer, c_string, client_session, on_reply, on_sent,
}
use bc.Examples.Sessions.Echoes.{Mimics, example_session-Mimics}
use bc.Examples.Sessions.Replies.{Chat, client_session-Shows}

-- The write behind the second read finds that the peer has hung up.
abbrev cut_short : List (Event × Event)
cut_short = (read_event, write_event) ∷ (read_event, hangup_event) ∷ []

example_session-Mimics_example :
    (echoed lost : Bytes) × (c : Course wire sock cut_short talk echoed lost
      (session wire cut_short sock talk))
    × Mimics wire (example_session wire cut_short sock talk) (session wire cut_short sock talk) c
example_session-Mimics_example = example_session-Mimics wire cut_short sock talk

mimicked :
    ((session wire cut_short sock talk).0 ≡ ok true)
    × ((example_session wire cut_short sock talk).0 ≡ err assertion)
unfolding session on_read on_written example_session on_request on_answer get_error resume_read
    resume_write report message find_case number
mimicked = (refl, refl)

-- The write of the third line finds that the peer has hung up.
abbrev typed : List Line
typed =
    record { text = codes "hi"; write_event = write_event; read_event = read_event }
    ∷ record { text = codes "you"; write_event = write_event; read_event = read_event }
    ∷ record { text = codes "bye"; write_event = hangup_event; read_event = read_event }
    ∷ []

client_session-Shows_example :
    let out = client_session wire typed [] sock talk in
    (pieces : List Bytes) × (rest : Bytes) × (Chat wire sock typed talk pieces rest out.1 out.2
      × ((out.0 ≡ map c_string pieces)
          × (line.input talk ≡ joined pieces ++ rest ++ line.input out.2)))
client_session-Shows_example = client_session-Shows wire sock line typed [] talk

replies_shown :
    ((client_session wire typed [] sock talk).0 ≡ codes "hello" ∷ codes "world" ∷ [])
    × ((client_session wire typed [] sock talk).1 ≡ ok tt)
unfolding client_session on_sent on_reply c_string resume_read resume_write report message find_case
    number
replies_shown = (refl, refl)
