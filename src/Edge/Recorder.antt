-- ===== src/Edge/Recorder.antt =====
-- apps/edge/audio_diagnostics.py: SessionAudioRecorder, which bounds what a session records. The
-- thread that writes and the one that records meet in the queue; their steps come in any order.
pub mod Bounded
use agent_workload_platform.Prelude.{
  ℕ, ◌+◌, ◌/◌, Bool, true, false, ◌&&◌, ◌||◌, Option, none, some, List, [], ◌∷◌, ◌++◌, ltb,
  if◌then◌else◌, length,
}
use agent_workload_platform.Json.{Value}

-- What waits in the queue: the audio of one chunk, or the sentinel.
pub data Item : Type 0 where
  audio : List ℕ → List ℕ → Item
  sentinel : Item

pub record Recorder : Type 0 where
  pub raw_frames : ℕ
  pub dropped_chunks : ℕ
  pub truncated : Bool
  pub closed : Bool
  pub metrics : List Value
  pub queue : List Item
  -- whether `close` still waits for room in the queue
  pub closing : Bool
  -- the writer's two files, and whether it has met the sentinel
  pub raw_file : List ℕ
  pub filtered_file : List ℕ
  pub stopped : Bool

abbrev pub new_recorder : Recorder
new_recorder = record {
  raw_frames = 0;
  dropped_chunks = 0;
  truncated = false;
  closed = false;
  metrics = [];
  queue = [];
  closing = false;
  raw_file = [];
  filtered_file = [];
  stopped = false;
}

-- queue.Queue(maxsize=256)
abbrev pub capacity : ℕ
capacity = 256

-- put_nowait, where a full queue drops the chunk
offered : List ℕ → List ℕ → Recorder → Recorder
offered raw filtered r =
    if ltb (length r.queue) capacity
    then record r { queue = r.queue ++ audio raw filtered ∷ [] }
    else record r { dropped_chunks = r.dropped_chunks + 1 }

-- metrics are kept where there are some
measured : Option Value → Recorder → Recorder
measured none r = r
measured (some point) r = record r { metrics = r.metrics ++ point ∷ [] }

-- `record`; the bound is sample_rate * max_seconds frames of two bytes.
unfoldable pub record_chunk : ℕ → List ℕ → List ℕ → Option Value → Recorder → Recorder
unfolding offered measured
record_chunk max_frames raw filtered point r =
    if r.closed || r.truncated
    then r
    else if ltb max_frames (r.raw_frames + length raw / 2)
    then record r { truncated = true }
    else offered raw filtered
        (measured point (record r { raw_frames = r.raw_frames + length raw / 2 }))

-- The first part of `close`: nothing is recorded from here on.
unfoldable pub close : Recorder → Recorder
close r = if r.closed then r else record r { closed = true; closing = true }

-- put of the sentinel, which waits for room
unfoldable pub put_sentinel : Recorder → Recorder
put_sentinel r =
    if r.closing && ltb (length r.queue) capacity
    then record r { closing = false; queue = r.queue ++ sentinel ∷ [] }
    else r

taken : List Item → Recorder → Recorder
taken [] r = r
taken (sentinel ∷ rest) r = record r { queue = rest; stopped = true }
taken (audio raw filtered ∷ rest) r = record r {
  queue = rest;
  raw_file = r.raw_file ++ raw;
  filtered_file = r.filtered_file ++ filtered;
}

-- One turn of `_write_loop`
unfoldable pub write : Recorder → Recorder
unfolding taken
write r = if r.stopped then r else taken r.queue r

pub data Event : Type 0 where
  recorded : List ℕ → List ℕ → Option Value → Event
  closed_by : Event
  put : Event
  wrote : Event

unfoldable pub step : ℕ → Event → Recorder → Recorder
step max_frames (recorded raw filtered point) r = record_chunk max_frames raw filtered point r
step max_frames closed_by r = close r
step max_frames put r = put_sentinel r
step max_frames wrote r = write r

unfoldable pub run : ℕ → List Event → Recorder → Recorder
run max_frames [] r = r
run max_frames (e ∷ es) r = run max_frames es (step max_frames e r)
