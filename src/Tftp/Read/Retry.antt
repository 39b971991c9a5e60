-- ===== src/Tftp/Read/Retry.antt =====
-- What a download sends again when a reply is no acknowledgement.
use esp32_berry_lang.Base.{
  ℕ, suc, ◌+◌, Bytes, List, [], ◌∷◌, ◌++◌, length, take, drop, overlay, ◌≡◌, refl, ap, arith,
  append_assoc, ◌∙◌, take-overlay, true, ltb, not, ◌||◌, ◌==◌, length-drop,
}
use esp32_berry_lang.Tftp.Wire.{error_cmd, ack_cmd, not_defined, get16}
use esp32_berry_lang.Tftp.Machine.{
  failed, Recv, datagram, Server, ack_packet, incorrect_ack, sendto, error_bytes, send_error,
  check_ack, wait_for_ack,
}
use esp32_berry_lang.Tftp.Machine.Sends.{sendto_lem}
use esp32_berry_lang.Tftp.Read.{attempts}
use esp32_berry_lang.Tftp.Read.Download.{put16_lem, attempts_ok, wait_for_ack_lem}

-- The ERROR packet of a wrong acknowledgement, and the buffer that it is built in.
abbrev pub error_packet : Bytes
error_packet = 0 ∷ 5 ∷ 0 ∷ 0 ∷ (incorrect_ack ++ 0 ∷ [])

abbrev pub error_buffer : Bytes → Bytes
error_buffer b = 0 ∷ 5 ∷ 0 ∷ 0 ∷ overlay (incorrect_ack ++ 0 ∷ []) (drop 4 b)

error_bytes_lem :
    (b : Bytes) → length b ≡ 516 → error_bytes not_defined incorrect_ack b ≡ error_buffer b
unfolding error_bytes
error_bytes_lem b h = rw (put16_lem b error_cmd not_defined (omega arith))

send_error_lem :
    (s : Server)
    → s.sends ≡ []
    → length s.m_buffer ≡ 516
    → send_error not_defined incorrect_ack s ≡ record s {
      m_buffer = error_buffer s.m_buffer;
      outbox = s.outbox ++ (record { to = s.m_client; payload = error_packet } ∷ []);
    }
unfolding send_error
send_error_lem s hs hb =
    ap (λ b. (sendto (take 18 b) (record s { m_buffer = b })).1) (error_bytes_lem s.m_buffer hb)
    ∙ ap (λ r. r.1)
        (sendto_lem (take 18 (error_buffer s.m_buffer))
          (record s { m_buffer = error_buffer s.m_buffer }) hs)
    ∙ ap
        (λ t. record s {
          m_buffer = error_buffer s.m_buffer;
          outbox = s.outbox ++ (record { to = s.m_client; payload = 0 ∷ 5 ∷ 0 ∷ 0 ∷ t } ∷ []);
        })
        (take-overlay 14 (incorrect_ack ++ 0 ∷ []) (drop 4 s.m_buffer) refl
          (omega (arith, length-drop 4 s.m_buffer)))

-- The reply is too short for an acknowledgement, or is another packet.
abbrev pub IsWrong : Bytes → Type 0
IsWrong d = (ltb (length d) 4 || not (get16 d 0 == ack_cmd)) ≡ true

attempts_again :
    (r size block : ℕ) (inbox inbox' : List Recv) (s s1 s2 : Server)
    → sendto (take (size + 4) s.m_buffer) s ≡ (true, s1)
    → wait_for_ack block inbox s1 ≡ (failed, inbox', s2)
    → attempts (suc r) size block inbox s ≡ attempts r size block inbox' s2
unfolding attempts
attempts_again r size block inbox inbox' s s1 s2 h k = ground arith

wait_for_ack-IsWrong :
    (block from : ℕ) (d : Bytes) (inbox : List Recv) (s : Server)
    → IsWrong d
    → wait_for_ack block (datagram from d ∷ inbox) s
      ≡ (failed, inbox, send_error not_defined incorrect_ack (record s { m_client = from }))
unfolding wait_for_ack check_ack
wait_for_ack-IsWrong block from d inbox s w = rw w

-- A block whose first reply is wrong is sent again, but not as a DATA packet: an ERROR packet has
-- been built over it, and it is that packet, with what is left of the data behind it, that goes out.
-- If its acknowledgement then comes, the block counts as sent.
pub attempts_retry :
    (size block from from' : ℕ) (d : Bytes) (inbox : List Recv) (s : Server)
    → s.sends ≡ []
    → length s.m_buffer ≡ 516
    → IsWrong d
    → attempts 3 size block (datagram from d ∷ datagram from' (ack_packet block) ∷ inbox) s ≡ (
      true,
      inbox,
      record s {
        m_client = from';
        m_buffer = error_buffer s.m_buffer;
        outbox =
            s.outbox
            ++ (record { to = s.m_client; payload = take (size + 4) s.m_buffer }
                ∷ record { to = from; payload = error_packet }
                ∷ record { to = from; payload = take (size + 4) (error_buffer s.m_buffer) }
                ∷ []);
      },
    )
attempts_retry size block from from' d inbox s hs hb w =
    attempts_again 2 size block _ _ s first wrong (sendto_lem (take (size + 4) s.m_buffer) s hs) (
      wait_for_ack-IsWrong block from d _ first w
      ∙ ap (λ t. (failed, datagram from' (ack_packet block) ∷ inbox, t))
          (send_error_lem (record first { m_client = from }) hs hb))
    ∙ attempts_ok 1 size block _ inbox wrong second (record second { m_client = from' })
        (sendto_lem (take (size + 4) (error_buffer s.m_buffer)) wrong hs)
        (wait_for_ack_lem block from' inbox second)
    ∙ simp append_assoc
  where
    first : Server
    first = record s {
      outbox = s.outbox ++ (record { to = s.m_client; payload = take (size + 4) s.m_buffer } ∷ []);
    }

    wrong : Server
    wrong = record first {
      m_client = from;
      m_buffer = error_buffer s.m_buffer;
      outbox = first.outbox ++ (record { to = from; payload = error_packet } ∷ []);
    }

    second : Server
    second = record wrong {
      outbox =
          wrong.outbox
          ++ (record { to = from; payload = take (size + 4) (error_buffer s.m_buffer) } ∷ []);
    }
