-- ===== src/Log/Formatter.antt =====
-- include/bc/log/formatter.hpp and the class `formatter` of src/log/formatter.cpp. The constructor
-- walks the format string with two indices, `s` and `i`; `scan` carries the bytes between them and
-- the bytes from `i` on. A string view into the format is the bytes that it shows.
pub mod Grammar
pub mod RoundTrip
pub mod Output
use bc.Prelude.{
  ℕ, List, [], ◌∷◌, ◌++◌, Option, none, some, Bytes, Bool, true, false, ◌&&◌, codes, equal, ◌==◌,
  if◌then◌else◌,
}
use mathlib.Core.List.{reverse}
use bc.Log.Record.{Level, Record, level_string}

pub data MetaType : Type 0 where
  datetime level topic thread location message : MetaType

-- `std::variant<std::string_view, meta_type>`.
pub data Segment : Type 0 where
  text : Bytes → Segment
  field : MetaType → Segment

pub data State : Type 0 where
  raw in_meta : State

-- The ladder of comparisons at a closing brace; any other name adds no segment.
unfoldable pub name_of : Bytes → Option MetaType
unfolding equal
name_of segment =
    if equal segment (codes "datetime")
    then some datetime
    else if equal segment (codes "level")
    then some level
    else if equal segment (codes "topic")
    then some topic
    else if equal segment (codes "thread")
    then some thread
    else if equal segment (codes "location")
    then some location
    else if equal segment (codes "message")
    then some message
    else none

-- `emplace_back` of the bytes from `s` to `i`, where there are any.
abbrev pub emplace_text : Bytes → List Segment → List Segment
emplace_text [] later = later
emplace_text (c ∷ cs) later = text (c ∷ cs) ∷ later

abbrev pub push_named : Option MetaType → List Segment → List Segment
push_named none later = later
push_named (some m) later = field m ∷ later

-- The loop, and the check behind it: `scan state buf rest` is what is still appended to
-- `segments_` when the bytes from `s` to `i` are `buf` and `rest` starts at `i`.
unfoldable pub scan : State → Bytes → Bytes → List Segment
unfolding name_of
scan raw buf [] = emplace_text buf []
scan raw buf (c ∷ []) = scan raw (buf ++ c ∷ []) []
scan raw buf (c ∷ d ∷ cs) = elim (c == b'%' && d == b'{') [
  | true ↦ emplace_text buf (scan in_meta [] cs)
  | false ↦ scan raw (buf ++ c ∷ []) (d ∷ cs)
]
scan in_meta buf [] = []
scan in_meta buf (c ∷ cs) = elim (c == b'}') [
  | true ↦ push_named (name_of buf) (scan raw [] cs)
  | false ↦ scan in_meta (buf ++ c ∷ []) cs
]

pub record Formatter : Type 0 where
  pub format_ : Bytes
  pub segments_ : List Segment

-- The constructor.
unfoldable pub formatter : Bytes → Formatter
unfolding scan
formatter format = record { format_ = format; segments_ = scan raw [] format }

-- The cases of `repr`.
abbrev pub meta_repr : MetaType → Bytes
meta_repr datetime = codes "%{datetime}"
meta_repr level = codes "%{level}"
meta_repr topic = codes "%{topic}"
meta_repr thread = codes "%{thread}"
meta_repr location = codes "%{location}"
meta_repr message = codes "%{message}"

abbrev pub segment_repr : Segment → Bytes
segment_repr (text t) = t
segment_repr (field m) = meta_repr m

unfoldable pub repr_onto : Bytes → List Segment → Bytes
repr_onto out [] = out
repr_onto out (s ∷ ss) = repr_onto (out ++ segment_repr s) ss

unfoldable pub repr : Formatter → Bytes
unfolding repr_onto
repr f = repr_onto [] f.segments_

-- What the third-party library fmt prints: a time to the millisecond, and a number by `{}`.
pub record Fmt : Type 0 where
  pub datetime_text : ℕ → Bytes
  pub number : ℕ → Bytes

-- The text for one segment; `none` is a fault.
abbrev pub render : Fmt → Record → Segment → Option Bytes
render fmt r (text t) = some t
render fmt r (field datetime) = some (fmt.datetime_text r.timestamp)
render fmt r (field level) = level_string r.lv
render fmt r (field topic) = some r.topic
render fmt r (field thread) = some (fmt.number r.tid)
render fmt r (field location) = some (r.location.file_name ++ b':' ∷ fmt.number r.location.line)
render fmt r (field message) = some r.message

-- The loop over the segments.
unfoldable pub render_onto : Fmt → Record → Bytes → List Segment → Option Bytes
render_onto fmt r log [] = some log
render_onto fmt r log (s ∷ ss) = elim (render fmt r s) [
  | none ↦ none
  | some t ↦ render_onto fmt r (log ++ t) ss
]

-- `while (log.back() == '\n') log.pop_back()` on the reversed string. `back()` of an empty string
-- is undefined behaviour, here `none`.
pub pop_newlines : Bytes → Option Bytes
pop_newlines [] = none
pop_newlines (c ∷ cs) = if c == b'\n' then pop_newlines cs else some (c ∷ cs)

-- The strip of trailing newlines.
unfoldable pub strip : Bytes → Option Bytes
unfolding pop_newlines
strip log = elim (pop_newlines (reverse log)) [ none ↦ none | some kept ↦ some (reverse kept) ]

-- `format`.
unfoldable pub format : Fmt → Formatter → Record → Option Bytes
unfolding render_onto strip
format fmt f r = elim (render_onto fmt r [] f.segments_) [ none ↦ none | some log ↦ strip log ]
