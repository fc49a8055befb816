-- ===== src/Log/Worker/Loop/Ends.antt =====
-- What the thread of the worker has done, once the program has ended.
use mathlib.Core.Path.{subst}
use mathlib.Core.List.{append_assoc, append-nil}
use bc.Prelude.{
  ℕ, ◌≡◌, Bool, true, false, if◌then◌else◌, List, [], ◌∷◌, refl, sym, ap, ◌∙◌, ◌++◌, Bytes,
  append_laws, Result, ok, ◌>>=◌, arith, Gives-eq-ok, inl, inr, ◌⊎◌,
}
use bc.Log.Formatter.{Fmt, Formatter}
use bc.Log.Formatter.Output.{HasInk}
use bc.Log.Worker.{Worker, Buffers, drain, round}
use bc.Log.Worker.Buffers.{text_at, IsAscending}
use bc.Log.Worker.Texts.{lines_of, written, is_waiter, round_writes}
use bc.Log.Worker.References.{round-Counts}
use bc.Log.Worker.Loop.{Request, Turn, turn, loop, requests_of}
use bc.Log.Worker.Loop.Settings.{round-Keeps, drain-round}
use bc.Log.Worker.Loop.Blocks.{
  texts_of, texts_of-append, texts_of-text_at, written-append, lines_of-append, all_ink,
}
use bc.Log.Worker.Loop.Served.{passed_all, any_asks, StopsLast, Served, Reaches, serve_all-Reaches}

if_false {ℓ} : {A : Type ℓ} (b : Bool) (x y : A) → b ≡ false → (if b then x else y) ≡ y
if_false true x y h = cc
if_false false x y h = refl

if_true {ℓ} : {A : Type ℓ} (b : Bool) (x y : A) → b ≡ true → (if b then x else y) ≡ x
if_true true x y h = refl
if_true false x y h = cc

-- `loop` tests `stop_` before each turn.
loop_stopped :
    (fmt : Fmt) (ts : List Turn) (w : Worker)
    → w.stop_ ≡ true
    → loop fmt ts w ≡ drain fmt w.logs_ w.waiters_ w
unfolding loop
loop_stopped fmt [] w h = if_true w.stop_ _ _ h
loop_stopped fmt (t ∷ ts) w h = if_true w.stop_ _ _ h

loop_running :
    (fmt : Fmt) (t : Turn) (ts : List Turn) (w : Worker)
    → w.stop_ ≡ false
    → loop fmt (t ∷ ts) w ≡ (turn fmt t w >>= λ w'. loop fmt ts w')
unfolding loop
loop_running fmt t ts w h = if_false w.stop_ _ _ h

module _ (fmt : Fmt) (start : Worker) (all : List Request) where
  -- What the end of the loop leaves.
  abbrev pub Finished : Worker → Type 0
  Finished w =
      ((bs : Buffers) × (((l : ℕ)
            → texts_of l bs
              ≡ lines_of fmt (λ k. (start.loggers k).formatter_) l (passed_all start.loggers all))
          × (w.console ≡ start.console ++ written (λ k. (start.loggers k).file_) bs)))
      × (((l : ℕ) → (w.loggers l).ref_ ≡ 0)
          × ((j : ℕ) → any_asks j all ≡ true → w.flushed j ≡ true))

  abbrev pub Finishes : Result Worker → Type 0
  Finishes out = (w : Worker) × ((out ≡ ok w) × Finished w)

  module _ (ink : (l : ℕ) → HasInk (start.loggers l).formatter_.segments_) where
    round-Served :
        (rs : List Request) (w w' : Worker) (bs : Buffers)
        → Served fmt start all rs w
        → round fmt w ≡ ok w'
        → w'.logs_ ≡ []
        → w'.waiters_ ≡ []
        → ((j : ℕ) → w'.flushed j ≡ (if is_waiter j w.waiters_ then true else w.flushed j))
        → IsAscending bs
        → ((l : ℕ) → text_at l bs ≡ lines_of fmt (λ k. (start.loggers k).formatter_) l w.logs_)
        → w'.console ≡ w.console ++ written (λ k. (start.loggers k).file_) bs
        → Served fmt start all rs w'
    round-Served rs w w' bs s done none_left no_waiter flags asc texts shown =
        let fs : ℕ → Formatter = λ k. (start.loggers k).formatter_ in
        let files : ℕ → Bytes = λ k. (start.loggers k).file_ in
        let keeps = Gives-eq-ok (round-Keeps fmt w) done in
        record {
          kept = keeps.0 ∙ s.kept;
          counted = Gives-eq-ok (round-Counts fmt w s.counted) done;
          fits =
              subst (λ b. ((b ≡ false) × StopsLast rs) ⊎ ((b ≡ true) × (rs ≡ []))) (sym keeps.1)
                s.fits;
          answered = λ j h. ground (arith, no_waiter, flags j, s.answered j h);
          drained = s.drained ++ w.logs_;
          blocks = s.blocks ++ bs;
          split = rw (none_left, append-nil (s.drained ++ w.logs_)) s.split;
          texts = λ l.
              rw (texts_of-append l s.blocks bs, texts_of-text_at l bs asc, texts l, s.texts l)
                (sym (lines_of-append fmt fs l s.drained w.logs_));
          shown =
              shown
              ∙ rw (s.shown, written-append files s.blocks bs)
                  (append_assoc start.console (written files s.blocks) (written files bs));
        }

    abbrev Rounded : List Request → Worker → Type 0
    Rounded rs w =
        (w' : Worker) × ((round fmt w ≡ ok w')
          × ((w'.logs_ ≡ []) × ((w'.waiters_ ≡ []) × Served fmt start all rs w')))

    round-Rounded : (rs : List Request) (w : Worker) → Served fmt start all rs w → Rounded rs w
    round-Rounded rs w s =
        let w_fs : ℕ → Formatter = λ k. (w.loggers k).formatter_ in
        let fs : ℕ → Formatter = λ k. (start.loggers k).formatter_ in
        let w_files : ℕ → Bytes = λ k. (w.loggers k).file_ in
        let files : ℕ → Bytes = λ k. (start.loggers k).file_ in
        let same : fs ≡ w_fs = sym (λ i k. (s.kept i k).formatter_) in
        let same_files : w_files ≡ files = λ i k. (s.kept i k).file_ in
        let (w', (done, (none_left, (no_waiter, (flags, (bs, (asc, (texts, shown)))))))) =
          round_writes fmt w
            (all_ink w_fs (subst (λ g. (l : ℕ) → HasInk (g l).segments_) same ink) w.logs_) in
        (
          w',
          (
            done,
            (
              none_left,
              (
                no_waiter,
                round-Served rs w w' bs s done none_left no_waiter flags asc
                    (λ l. texts l ∙ ap (λ g. lines_of fmt g l w.logs_) (sym same))
                    (shown ∙ ap (λ g. w.console ++ written g bs) same_files),
              ),
            ),
          ),
        )

    turn-Reaches :
        (t : Turn) (more : List Request) (w : Worker)
        → Served fmt start all (t.waiting ++ (t.draining ++ more)) w
        → Reaches fmt start all more (turn fmt t w)
    unfolding turn
    turn-Reaches t more w s =
        let (w1, (e1, s1)) = serve_all-Reaches fmt start all t.waiting (t.draining ++ more) w s in
        let (w2, (e2, (l2, (f2, s2)))) = round-Rounded (t.draining ++ more) w1 s1 in
        rw (e1, e2) (serve_all-Reaches fmt start all t.draining more w2 s2)

    Served-Finished :
        (w : Worker) → w.logs_ ≡ [] → w.waiters_ ≡ [] → Served fmt start all [] w → Finished w
    Served-Finished w none_left no_waiter s =
        let all_drained : passed_all start.loggers all ≡ s.drained =
          s.split ∙ rw none_left (simp append_laws) in
        (
          (
            s.blocks,
            (
              λ l.
                  s.texts l
                  ∙ ap (lines_of fmt (λ k. (start.loggers k).formatter_) l) (sym all_drained),
              s.shown,
            ),
          ),
          (λ l. s.counted l ∙ rw none_left refl, λ j h. ground (arith, no_waiter, s.answered j h)),
        )

    drain-Finishes :
        (w : Worker) → Served fmt start all [] w → Finishes (drain fmt w.logs_ w.waiters_ w)
    drain-Finishes w s =
        let (w', (done, (none_left, (no_waiter, s')))) = round-Rounded [] w s in
        let f = Served-Finished w' none_left no_waiter s' in
        (record w' { logs_ = w.logs_; waiters_ = w.waiters_ }, (drain-round fmt w w' done, f))

    stopped-Finishes :
        (ts : List Turn) (rs : List Request) (w : Worker)
        → w.stop_ ≡ true
        → rs ≡ []
        → Served fmt start all rs w
        → Finishes (loop fmt ts w)
    stopped-Finishes ts rs w h none_left s =
        rw (loop_stopped fmt ts w h)
          (drain-Finishes w (subst (λ x. Served fmt start all x w) none_left s))

    loop-Finishes :
        (ts : List Turn) (w : Worker)
        → Served fmt start all (requests_of ts) w
        → Finishes (loop fmt ts w)
    loop-Finishes [] w s = elim s.fits [
      | inl (running, f) ↦ absurd f
      | inr (stopped, f) ↦ stopped-Finishes [] [] w stopped f s
    ]
    loop-Finishes (t ∷ ts) w s = elim s.fits [
      | inl (running, f) ↦
          let (w', (done, s')) = turn-Reaches t (requests_of ts) w s in
          rw (loop_running fmt t ts w running, done) (loop-Finishes ts w' s')
      | inr (stopped, f) ↦ stopped-Finishes (t ∷ ts) (requests_of (t ∷ ts)) w stopped f s
    ]

-- Where the program ends by its last request, and every logger has a format with a text that is not
-- all newlines, the thread of a worker that begins with no records and no references ends, however
-- the requests fall between its rounds. It has then appended to the console blocks of lines, those
-- of the loggers without a file; the blocks of each logger are together the lines of exactly its
-- records that pass its level, in their order. No logger is referenced any more, and the flag of
-- every flush is set.
pub loop_writes :
    (fmt : Fmt) (ts : List Turn) (w : Worker)
    → w.stop_ ≡ false
    → w.logs_ ≡ []
    → ((l : ℕ) → (w.loggers l).ref_ ≡ 0)
    → ((l : ℕ) → HasInk (w.loggers l).formatter_.segments_)
    → StopsLast (requests_of ts)
    → Finishes fmt w (requests_of ts) (loop fmt ts w)
loop_writes fmt ts w running empty free ink last =
    loop-Finishes fmt w (requests_of ts) ink ts w (record {
      kept = refl;
      counted = λ l. rw (empty, free l) refl;
      fits = inl (running, last);
      answered = λ j h. ground arith;
      drained = [];
      blocks = [];
      split = rw empty refl;
      texts = λ l. refl;
      shown = sym (append-nil w.console);
    })
