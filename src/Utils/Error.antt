-- ===== src/Utils/Error.antt =====
-- include/bc/utils/error.hpp: the enumeration `errc`, the category's messages and
-- `trans_error_code`. The numbers of the system's codes are Linux's, as the comments there give them.
pub mod Messages
use bc.Prelude.{
  ℕ, ◌≡◌, ◌↔◌, List, [], ◌∷◌, Option, none, some, Bytes, codes, ◌==◌, if◌then◌else◌, arith, Result,
  ok, err, aborted,
}

pub data Errc : Type 0 where
  operation_not_permitted : Errc
  no_such_file_or_directory : Errc
  interrupted : Errc
  io_error : Errc
  bad_file_descriptor : Errc
  not_enough_memory : Errc
  permission_denied : Errc
  bad_address : Errc
  file_exists : Errc
  not_a_directory : Errc
  invalid_argument : Errc
  too_many_files_open : Errc
  file_too_large : Errc
  no_space_on_device : Errc
  read_only_file_system : Errc
  broken_pipe : Errc
  name_too_long : Errc
  too_many_symbolic_link_levels : Errc
  not_a_socket : Errc
  destination_address_required : Errc
  no_protocol_option : Errc
  operation_not_supported : Errc
  address_in_use : Errc
  address_not_available : Errc
  quota_exceeded : Errc
  epoll_error : Errc
  closed_by_peer : Errc
  invalid_address : Errc

-- The value of an enumerator.
unfoldable pub number : Errc → ℕ
number Errc.operation_not_permitted = 1
number Errc.no_such_file_or_directory = 2
number Errc.interrupted = 4
number Errc.io_error = 5
number Errc.bad_file_descriptor = 9
number Errc.not_enough_memory = 12
number Errc.permission_denied = 13
number Errc.bad_address = 14
number Errc.file_exists = 17
number Errc.not_a_directory = 20
number Errc.invalid_argument = 22
number Errc.too_many_files_open = 24
number Errc.file_too_large = 27
number Errc.no_space_on_device = 28
number Errc.read_only_file_system = 30
number Errc.broken_pipe = 32
number Errc.name_too_long = 36
number Errc.too_many_symbolic_link_levels = 40
number Errc.not_a_socket = 88
number Errc.destination_address_required = 89
number Errc.no_protocol_option = 92
number Errc.operation_not_supported = 95
number Errc.address_in_use = 98
number Errc.address_not_available = 99
number Errc.quota_exceeded = 122
number Errc.epoll_error = 200
number Errc.closed_by_peer = 201
number Errc.invalid_address = 202

abbrev pub all_errc : List Errc
all_errc =
    Errc.operation_not_permitted ∷ Errc.no_such_file_or_directory ∷ Errc.interrupted ∷ Errc.io_error
    ∷ Errc.bad_file_descriptor ∷ Errc.not_enough_memory ∷ Errc.permission_denied ∷ Errc.bad_address
    ∷ Errc.file_exists ∷ Errc.not_a_directory ∷ Errc.invalid_argument ∷ Errc.too_many_files_open
    ∷ Errc.file_too_large ∷ Errc.no_space_on_device ∷ Errc.read_only_file_system ∷ Errc.broken_pipe
    ∷ Errc.name_too_long ∷ Errc.too_many_symbolic_link_levels ∷ Errc.not_a_socket
    ∷ Errc.destination_address_required ∷ Errc.no_protocol_option ∷ Errc.operation_not_supported
    ∷ Errc.address_in_use ∷ Errc.address_not_available ∷ Errc.quota_exceeded ∷ Errc.epoll_error
    ∷ Errc.closed_by_peer ∷ Errc.invalid_address ∷ []

abbrev pub text_of : Errc → Bytes
text_of Errc.operation_not_permitted = codes "operation not permitted"
text_of Errc.no_such_file_or_directory = codes "no such file or directory"
text_of Errc.interrupted = codes "interrupted system call"
text_of Errc.io_error = codes "input/output error"
text_of Errc.bad_file_descriptor = codes "bad file descriptor"
text_of Errc.not_enough_memory = codes "cannot allocate memory"
text_of Errc.permission_denied = codes "permission denied"
text_of Errc.bad_address = codes "bad address"
text_of Errc.file_exists = codes "file exists"
text_of Errc.not_a_directory = codes "not a directory"
text_of Errc.invalid_argument = codes "invalid argument"
text_of Errc.too_many_files_open = codes "too many open files"
text_of Errc.file_too_large = codes "file too large"
text_of Errc.no_space_on_device = codes "no space left on device"
text_of Errc.read_only_file_system = codes "read-only file system"
text_of Errc.broken_pipe = codes "broken pipe"
text_of Errc.name_too_long = codes "name too long"
text_of Errc.too_many_symbolic_link_levels = codes "too many levels of symbolic links"
text_of Errc.not_a_socket = codes "socket operation on non-socket"
text_of Errc.destination_address_required = codes "destination address required"
text_of Errc.no_protocol_option = codes "protocol not available"
text_of Errc.operation_not_supported = codes "operation not supported"
text_of Errc.address_in_use = codes "address already in use"
text_of Errc.address_not_available = codes "cannot assign requested address"
text_of Errc.quota_exceeded = codes "quota exceeded"
text_of Errc.epoll_error = codes "epoll error"
text_of Errc.closed_by_peer = codes "closed by peer"
text_of Errc.invalid_address = codes "invalid address"

-- The first enumerator with the value, as the cases of the switch are tried.
unfoldable pub find_case : ℕ → List Errc → Option Errc
find_case condition [] = none
find_case condition (c ∷ cs) = if number c == condition then some c else find_case condition cs

-- `message`; `none` is the call of `abort` in the default case.
unfoldable pub message : ℕ → Option Bytes
message condition = elim (find_case condition all_errc) [ none ↦ none | some c ↦ some (text_of c) ]

-- What a call of the log with the message of a code makes of it: the message comes first.
unfoldable pub report : ℕ → Result (Unit {0})
report condition = elim (message condition) [ none ↦ err aborted | some text ↦ ok tt ]
