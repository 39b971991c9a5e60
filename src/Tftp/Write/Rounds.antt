-- ===== src/Tftp/Write/Rounds.antt =====
-- The loop of `process_write`, one round at a time.
use esp32_berry_lang.Base.{ℕ, List, ◌∷◌, ◌≡◌, refl, ◌⊎◌, inl, inr}
use esp32_berry_lang.Tftp.Machine.{Code, Recv, Server, recv}
use esp32_berry_lang.Tftp.Write.{Verdict, stop, go, write_step, write_rounds}

-- To split on what a round does.
pub Verdict-cases :
    (v : Verdict)
    → ((c : Code) × (s : Server) × (v ≡ stop c s)) ⊎ ((n : ℕ) × (s : Server) × (v ≡ go n s))
Verdict-cases (stop c s) = inl (c, s, refl)
Verdict-cases (go n s) = inr (n, s, refl)

pub write_rounds-stop :
    (r : Recv) (inbox : List Recv) (next : ℕ) (s s' : Server) (c : Code)
    → write_step next (recv r s) ≡ stop c s'
    → write_rounds (r ∷ inbox) next s ≡ (c, inbox, s')
unfolding write_rounds
write_rounds-stop r inbox next s s' c e = rw (e, write_rounds)

pub write_rounds-go :
    (r : Recv) (inbox : List Recv) (next n : ℕ) (s s' : Server)
    → write_step next (recv r s) ≡ go n s'
    → write_rounds (r ∷ inbox) next s ≡ write_rounds inbox n s'
unfolding write_rounds
write_rounds-go r inbox next n s s' e = rw (e, write_rounds)
