-- ===== src/Mmal/Queue/History.antt =====
-- core/mmal_queue.c refines a list: whole histories of calls by one thread at a time.
use final.Base.{
  ◌≡◌, refl, ◌≢◌, false, Option, some, List, [], ◌∷◌, ◌++◌, arith, has, Yields, yields, Yields-mono,
  Yields-bind, ◌>>=◌,
}
use final.Mmal.World.{Ptr, null, World}
use final.Mmal.Queue.{put, put_back, get}
use final.Mmal.Queue.Fifo.{Holds, put-Holds, put_back-Holds}
use final.Mmal.Queue.Take.{get-nil, get-cons}

pub data Call : Type 0 where
  puts : Ptr → Call
  puts_back : Ptr → Call
  gets : Call

-- A call and what it returns; NULL stands for no result.
call : Ptr → Call → World → Option (Ptr × World)
call qp (puts b) w = do v ← put qp b w; some (null, v)
call qp (puts_back b) w = do v ← put_back qp b w; some (null, v)
call qp gets w = get qp w

pub run : Ptr → List Call → World → Option (List Ptr × World)
unfolding call
run qp [] w = some ([], w)
run qp (c ∷ cs) w = do (r, v) ← call qp c w; (rs, u) ← run qp cs v; some (r ∷ rs, u)

-- The specification: what each call returns and leaves of a list.
abbrev pub spec_call : Call → List Ptr → Ptr × List Ptr
spec_call (puts b) xs = (null, xs ++ b ∷ [])
spec_call (puts_back b) xs = (null, b ∷ xs)
spec_call gets [] = (null, [])
spec_call gets (x ∷ xs) = (x, xs)

abbrev pub spec_run : List Call → List Ptr → List Ptr × List Ptr
spec_run [] xs = ([], xs)
spec_run (c ∷ cs) xs = let r = spec_call c xs in let rs = spec_run cs r.1 in (r.0 ∷ rs.0, rs.1)

-- No call puts NULL, or a header that is queued already.
abbrev pub IsLegalCall : Call → List Ptr → Type 0
IsLegalCall (puts b) xs = (b ≢ null) × (has b xs ≡ false)
IsLegalCall (puts_back b) xs = (b ≢ null) × (has b xs ≡ false)
IsLegalCall gets xs = Unit

abbrev pub IsLegal : List Call → List Ptr → Type 0
IsLegal [] xs = Unit
IsLegal (c ∷ cs) xs = IsLegalCall c xs × IsLegal cs (spec_call c xs).1

abbrev Meets : Ptr → Ptr × List Ptr → Ptr × World → Type 0
Meets qp (r, ys) (b, v) = (b ≡ r) × Holds v qp 0 ys

call-Meets :
    {qp : Ptr} {w : World} (c : Call) (xs : List Ptr)
    → Holds w qp 0 xs
    → IsLegalCall c xs
    → Yields (Meets qp (spec_call c xs)) (call qp c w)
unfolding call
call-Meets (puts b) xs h l =
    Yields-bind (put-Holds b xs h l.0 l.1) λ v (held, _). yields (refl, held)
call-Meets (puts_back b) xs h l =
    Yields-bind (put_back-Holds b xs h l.0 l.1) λ v (held, _). yields (refl, held)
call-Meets gets [] h l = rw (get-nil [] h) (yields (refl, h))
call-Meets gets (x ∷ xs) h l = Yields-mono (get-cons xs h (omega arith)) λ (b, v) t. (t.0, t.1)

-- Every legal history of calls succeeds, returns what the list would and leaves what it would: the
-- queue is first in, first out, but for the headers that are put back at its front.
pub run-spec_run :
    {qp : Ptr} {w : World} (cs : List Call) (xs : List Ptr)
    → Holds w qp 0 xs
    → IsLegal cs xs
    → Yields (λ (rs, v). (rs ≡ (spec_run cs xs).0) × Holds v qp 0 (spec_run cs xs).1) (run qp cs w)
unfolding run
run-spec_run [] xs h l = yields (refl, h)
run-spec_run (c ∷ cs) xs h l = Yields-bind (call-Meets c xs h l.0) λ (b, v) (e, held).
    Yields-bind (run-spec_run cs (spec_call c xs).1 held l.1)
      λ (rs, u) (es, held'). yields (rw (e, es), held')
