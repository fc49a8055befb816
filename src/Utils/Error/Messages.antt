-- ===== src/Utils/Error/Messages.antt =====
-- `message` against the enumeration.
use bc.Prelude.{
  ℕ, ◌≡◌, ◌≢◌, ◌↔◌, ◌==◌, List, [], ◌∷◌, none, some, All, refl, arith, Bool-cases, Option-cases,
  inl, inr,
}
use bc.Utils.Error.{Errc, number, all_errc, text_of, find_case, message}

-- The list of enumerators leaves none out.
All-all_errc : (P : Errc → Type 0) → All P all_errc → (c : Errc) → P c
All-all_errc P h Errc.operation_not_permitted = h.0
All-all_errc P h Errc.no_such_file_or_directory = h.1.0
All-all_errc P h Errc.interrupted = h.1.1.0
All-all_errc P h Errc.io_error = h.1.1.1.0
All-all_errc P h Errc.bad_file_descriptor = h.1.1.1.1.0
All-all_errc P h Errc.not_enough_memory = h.1.1.1.1.1.0
All-all_errc P h Errc.permission_denied = h.1.1.1.1.1.1.0
All-all_errc P h Errc.bad_address = h.1.1.1.1.1.1.1.0
All-all_errc P h Errc.file_exists = h.1.1.1.1.1.1.1.1.0
All-all_errc P h Errc.not_a_directory = h.1.1.1.1.1.1.1.1.1.0
All-all_errc P h Errc.invalid_argument = h.1.1.1.1.1.1.1.1.1.1.0
All-all_errc P h Errc.too_many_files_open = h.1.1.1.1.1.1.1.1.1.1.1.0
All-all_errc P h Errc.file_too_large = h.1.1.1.1.1.1.1.1.1.1.1.1.0
All-all_errc P h Errc.no_space_on_device = h.1.1.1.1.1.1.1.1.1.1.1.1.1.0
All-all_errc P h Errc.read_only_file_system = h.1.1.1.1.1.1.1.1.1.1.1.1.1.1.0
All-all_errc P h Errc.broken_pipe = h.1.1.1.1.1.1.1.1.1.1.1.1.1.1.1.0
All-all_errc P h Errc.name_too_long = h.1.1.1.1.1.1.1.1.1.1.1.1.1.1.1.1.0
All-all_errc P h Errc.too_many_symbolic_link_levels = h.1.1.1.1.1.1.1.1.1.1.1.1.1.1.1.1.1.0
All-all_errc P h Errc.not_a_socket = h.1.1.1.1.1.1.1.1.1.1.1.1.1.1.1.1.1.1.0
All-all_errc P h Errc.destination_address_required = h.1.1.1.1.1.1.1.1.1.1.1.1.1.1.1.1.1.1.1.0
All-all_errc P h Errc.no_protocol_option = h.1.1.1.1.1.1.1.1.1.1.1.1.1.1.1.1.1.1.1.1.0
All-all_errc P h Errc.operation_not_supported = h.1.1.1.1.1.1.1.1.1.1.1.1.1.1.1.1.1.1.1.1.1.0
All-all_errc P h Errc.address_in_use = h.1.1.1.1.1.1.1.1.1.1.1.1.1.1.1.1.1.1.1.1.1.1.0
All-all_errc P h Errc.address_not_available = h.1.1.1.1.1.1.1.1.1.1.1.1.1.1.1.1.1.1.1.1.1.1.1.0
All-all_errc P h Errc.quota_exceeded = h.1.1.1.1.1.1.1.1.1.1.1.1.1.1.1.1.1.1.1.1.1.1.1.1.0
All-all_errc P h Errc.epoll_error = h.1.1.1.1.1.1.1.1.1.1.1.1.1.1.1.1.1.1.1.1.1.1.1.1.1.0
All-all_errc P h Errc.closed_by_peer = h.1.1.1.1.1.1.1.1.1.1.1.1.1.1.1.1.1.1.1.1.1.1.1.1.1.1.0
All-all_errc P h Errc.invalid_address = h.1.1.1.1.1.1.1.1.1.1.1.1.1.1.1.1.1.1.1.1.1.1.1.1.1.1.1.0

find_case-none : (n : ℕ) (cs : List Errc) → find_case n cs ≡ none → All (λ c. number c ≢ n) cs
unfolding find_case
find_case-none n [] h = tt
find_case-none n (c ∷ cs) h = elim (Bool-cases (number c == n)) [
  | inl e ↦ absurd (ground arith)
  | inr e ↦ ((λ q. ground arith), find_case-none n cs (ground arith))
]

find_case-missing : (n : ℕ) (cs : List Errc) → ((c : Errc) → number c ≢ n) → find_case n cs ≡ none
unfolding find_case
find_case-missing n [] h = refl
find_case-missing n (c ∷ cs) h =
    let other : number c ≢ n = h c in ground (arith, find_case-missing n cs h)

message-none : (n : ℕ) → message n ≡ none → find_case n all_errc ≡ none
unfolding message
message-none n h = elim (Option-cases (find_case n all_errc)) [
  | inl e ↦ e
  | inr (c, e) ↦ absurd (ground arith)
]

-- `message` aborts exactly at the numbers that the enumeration does not hold.
pub message-none_iff : (n : ℕ) → (message n ≡ none) ↔ ((c : Errc) → number c ≢ n)
unfolding message
message-none_iff n = (
  λ h. All-all_errc (λ c. number c ≢ n) (find_case-none n all_errc (message-none n h)),
  λ h. rw (find_case-missing n all_errc h, message),
)

-- Each enumerator has a message, its own.
pub message-number : (c : Errc) → message (number c) ≡ some (text_of c)
unfolding message find_case number
message-number Errc.operation_not_permitted = refl
message-number _ = refl
