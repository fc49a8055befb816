-- ===== src/Utils/Tests.antt =====
-- `message` at two numbers, one of them not in the enumeration, and chains of `and_then`.
use bc.Prelude.{◌≡◌, ◌≢◌, ◌↔◌, refl, none, some, codes}
use bc.Utils.Error.{Errc, number, find_case, message}
use bc.Utils.Error.Messages.{message-none_iff}

message_pipe : message 32 ≡ some (codes "broken pipe")
unfolding message find_case number
message_pipe = refl

-- ECONNRESET, which `read` gives when the peer resets the connection.
message_reset : message 104 ≡ none
unfolding message find_case number
message_reset = refl

message-none_iff_example : (message 104 ≡ none) ↔ ((c : Errc) → number c ≢ 104)
message-none_iff_example = message-none_iff 104
