-- ===== src/Tests/Logs.antt =====
-- A log with a small queue and short files.
use tunnel_board.Prelude.{pos, ℕ, ◌<◌, true, false, some, [], ◌∷◌, ◌≡◌, refl, value_at, suc}
use tunnel_board.Logs.{Bytes, LogStoreLimits, LogSource, line_command, barrier_command, begin_sync}
use tunnel_board.Logs.Queue.{run_times, sync_answered}
use tunnel_board.Logs.Rotation.{
  LogFiles, RotationWorld, rotate, shift_archives, shift_one, rotate_keeps_archives,
}
use tunnel_board.Logs.Tail.{IsTail, tail, tail-IsTail}

abbrev limits : LogStoreLimits
limits = record {
  file_bytes = 8;
  archives = 2;
  line_bytes = 4;
  queue_bytes = 16;
  tail_bytes = 6;
  tail_lines = 2;
}

abbrev notice : ℕ → Bytes
notice n = n ∷ 10 ∷ []

abbrev busy : LogSource
busy = record {
  limits = limits;
  commands = line_command (97 ∷ 10 ∷ []) ∷ barrier_command 1 ∷ [];
  queued = 2;
  dropped = 5;
  dropped_since_tail = 5;
  closed = false;
  finished = false;
  handed = [];
  answered = [];
}

sync_answered_example :
    (let t = run_times notice 3 (begin_sync 2 busy).0 in
      (t.commands ≡ [])
      × (t.handed ≡ (97 ∷ 10 ∷ []) ∷ (5 ∷ 10 ∷ []) ∷ [])
      × (t.answered ≡ 2 ∷ 1 ∷ []))
sync_answered_example = sync_answered notice 2 busy refl refl tt

abbrev full : LogFiles
full = record {
  files = (0, 97 ∷ 10 ∷ []) ∷ (1, 98 ∷ 10 ∷ []) ∷ (2, 99 ∷ 10 ∷ []) ∷ [];
  opened = true;
  size = 2;
  generation = 1;
}

abbrev willing : RotationWorld
willing = record {
  closes = true;
  removes = λ i. true;
  looks_up = λ i. true;
  renames = λ i. true;
  reopens = true;
}

full_rotates : (rotate willing limits full).1 ≡ true
unfolding rotate shift_archives shift_one
full_rotates = refl

rotate_keeps_archives_example :
    (let g = (rotate willing limits full).0 in
      (g.opened ≡ true)
      × (g.size ≡ 0)
      × (g.generation ≡ 2)
      × (value_at 0 g.files ≡ some [])
      × ((k : ℕ) → 2 < k → value_at k g.files ≡ value_at k full.files)
      × ((k : ℕ)
          → k < 2
          → willing.removes (suc k) ≡ true
          → willing.looks_up (suc k) ≡ true
          → value_at (suc k) g.files ≡ value_at k full.files))
rotate_keeps_archives_example = rotate_keeps_archives willing limits full full_rotates

abbrev text : Bytes
text = 97 ∷ 10 ∷ 98 ∷ 10 ∷ 99 ∷ 10 ∷ 100 ∷ 10 ∷ 101 ∷ []

tail-IsTail_example :
    IsTail limits 3 9 (tail limits 3 text (some (record { generation = 3; offset = pos 2 })))
tail-IsTail_example = tail-IsTail limits 3 text (some (record { generation = 3; offset = pos 2 }))
