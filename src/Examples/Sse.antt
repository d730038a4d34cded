-- ===== src/Examples/Sse.antt =====
-- Server-sent events that are read.
use serpe.Base.{◌≡◌, refl, [], ◌∷◌, ◌++◌, nat_eq, Bytes, bytes_beq, codes, length}
use serpe.Providers.Sse.{dispatched, failed, too_large, next}
use serpe.Providers.Sse.Bounded.{IsBounded, next-IsBounded}

-- A comment, a name, two lines of data, and another event behind them.
abbrev text : Bytes
text =
    codes ": ping"
    ++ (10 ∷ codes "event: tick"
        ++ (13 ∷ 10 ∷ codes "data: a" ++ (10 ∷ codes "data:b" ++ (10 ∷ 10 ∷ codes "data: c"))))

two_lines :
    next 100 [] text
    ≡ dispatched
        (record { name = codes "tick"; payload = b'a' ∷ 10 ∷ b'b' ∷ []; id = []; retry = [] })
        []
        (codes "data: c")
unfolding next bytes_beq
two_lines = refl

too_long : next 20 [] text ≡ failed too_large
unfolding next bytes_beq
too_long = refl

next-IsBounded_example : IsBounded 100 (length text) (next 100 [] text)
next-IsBounded_example = next-IsBounded 100 [] text
