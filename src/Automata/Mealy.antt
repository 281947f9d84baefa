-- ===== src/Automata/Mealy.antt =====
-- reference/salvage/lstar.cpp: `Mealy` and the machine `tcpServer`. A table is a function of its two
-- indices; the names of states, inputs and outputs, which are only printed, are left out.
use tcp_probe.Prelude.{
  ℕ, suc, ◌≡◌, refl, ap, Bool, true, false, ◌&&◌, List, [], ◌∷◌, ◌++◌, length, ◌==◌, if◌then◌else◌,
}

pub record Mealy : Type 0 where
  pub n : ℕ
  pub k : ℕ
  pub d : ℕ → ℕ → ℕ
  pub o : ℕ → ℕ → ℕ
  pub chal : ℕ → ℕ → Bool

-- `step`: the next state and `out`.
unfoldable pub step : Mealy → ℕ → ℕ → ℕ × ℕ
step m s a = (m.d s a, m.o s a)

unfoldable pub run : Mealy → ℕ → List ℕ → List ℕ
run m s [] = []
run m s (a ∷ w) = m.o s a ∷ run m (m.d s a) w

unfoldable pub reach : Mealy → ℕ → List ℕ → ℕ
reach m s [] = s
reach m s (a ∷ w) = reach m (m.d s a) w

pub run-append :
    (m : Mealy) (s : ℕ) (v w : List ℕ) → run m s (v ++ w) ≡ run m s v ++ run m (reach m s v) w
unfolding run reach
run-append m s [] w = refl
run-append m s (a ∷ v) w = ap (λ r. m.o s a ∷ r) (run-append m (m.d s a) v w)

pub reach-append : (m : Mealy) (s : ℕ) (v w : List ℕ) → reach m s (v ++ w) ≡ reach m (reach m s v) w
unfolding reach
reach-append m s [] w = refl
reach-append m s (a ∷ v) w = reach-append m (m.d s a) v w

pub length-run : (m : Mealy) (s : ℕ) (w : List ℕ) → length (run m s w) ≡ length w
unfolding run
length-run m s [] = refl
length-run m s (a ∷ w) = ap (λ x. suc x) (length-run m (m.d s a) w)

-- Inputs and outputs of the machine.
abbrev pub syn : ℕ
syn = 0

abbrev pub ack : ℕ
ack = 1

abbrev pub fin : ℕ
fin = 2

abbrev pub rst : ℕ
rst = 3

abbrev pub data_in : ℕ
data_in = 4

abbrev pub close : ℕ
close = 5

abbrev pub o_silent : ℕ
o_silent = 0

abbrev pub o_synack : ℕ
o_synack = 1

abbrev pub o_ack : ℕ
o_ack = 2

abbrev pub o_rst : ℕ
o_rst = 3

abbrev pub o_finack : ℕ
o_finack = 4

-- A cell of a table.
abbrev pub assign : {A : Type 0} → (ℕ → ℕ → A) → ℕ → ℕ → A → ℕ → ℕ → A
assign f s a x s' a' = if s == s' && a == a' then x else f s' a'

-- The lambda `T`, which writes one transition.
abbrev pub transition : ℕ → ℕ → ℕ → ℕ → Bool → Mealy → Mealy
transition s a ns out c m = record m {
  d = assign m.d s a ns;
  o = assign m.o s a out;
  chal = assign m.chal s a c;
}

abbrev blank_server : Mealy
blank_server = record { n = 10; k = 6; d = λ s a. 0; o = λ s a. 0; chal = λ s a. false }

abbrev listen_row : Mealy → Mealy
listen_row m = transition 0 close 9 o_silent false (
    transition 0 data_in 0 o_rst false (
      transition 0 rst 0 o_silent false (
        transition 0 fin 0 o_silent false
          (transition 0 ack 0 o_rst false (transition 0 syn 1 o_synack false m)))))

abbrev syn_rcvd_row : Mealy → Mealy
syn_rcvd_row m = transition 1 close 5 o_finack false (
    transition 1 data_in 1 o_silent false (
      transition 1 rst 0 o_silent false (
        transition 1 fin 3 o_ack false
          (transition 1 ack 2 o_silent false (transition 1 syn 1 o_silent false m)))))

abbrev estab_row : Mealy → Mealy
estab_row m = transition 2 close 5 o_finack false (
    transition 2 data_in 2 o_ack false (
      transition 2 rst 9 o_silent false (
        transition 2 fin 3 o_ack false
          (transition 2 ack 2 o_silent false (transition 2 syn 2 o_ack true m)))))

abbrev close_wait_row : Mealy → Mealy
close_wait_row m = transition 3 close 4 o_finack false (
    transition 3 data_in 3 o_ack false (
      transition 3 rst 9 o_silent false (
        transition 3 fin 3 o_ack false
          (transition 3 ack 3 o_silent false (transition 3 syn 3 o_ack true m)))))

abbrev last_ack_row : Mealy → Mealy
last_ack_row m = transition 4 close 4 o_silent false (
    transition 4 data_in 4 o_silent false (
      transition 4 rst 9 o_silent false (
        transition 4 fin 4 o_ack false
          (transition 4 ack 9 o_silent false (transition 4 syn 4 o_ack true m)))))

abbrev fin_wait_1_row : Mealy → Mealy
fin_wait_1_row m = transition 5 close 5 o_silent false (
    transition 5 data_in 5 o_ack false (
      transition 5 rst 9 o_silent false (
        transition 5 fin 7 o_ack false
          (transition 5 ack 6 o_silent false (transition 5 syn 5 o_ack true m)))))

abbrev fin_wait_2_row : Mealy → Mealy
fin_wait_2_row m = transition 6 close 6 o_silent false (
    transition 6 data_in 6 o_ack false (
      transition 6 rst 9 o_silent false (
        transition 6 fin 8 o_ack false
          (transition 6 ack 6 o_silent false (transition 6 syn 6 o_ack true m)))))

abbrev closing_row : Mealy → Mealy
closing_row m = transition 7 close 7 o_silent false (
    transition 7 data_in 7 o_silent false (
      transition 7 rst 9 o_silent false (
        transition 7 fin 7 o_ack false
          (transition 7 ack 8 o_silent false (transition 7 syn 7 o_ack true m)))))

abbrev time_wait_row : Mealy → Mealy
time_wait_row m = transition 8 close 8 o_silent false (
    transition 8 data_in 8 o_silent false (
      transition 8 rst 8 o_silent false (
        transition 8 fin 8 o_ack false
          (transition 8 ack 8 o_silent false (transition 8 syn 8 o_ack true m)))))

abbrev closed_row : Mealy → Mealy
closed_row m = transition 9 close 9 o_silent false (
    transition 9 data_in 9 o_rst false (
      transition 9 rst 9 o_silent false (
        transition 9 fin 9 o_rst false
          (transition 9 ack 9 o_rst false (transition 9 syn 9 o_rst false m)))))

unfoldable pub tcp_server : Mealy
tcp_server = closed_row (
    time_wait_row (
      closing_row (
        fin_wait_2_row (
          fin_wait_1_row
            (last_ack_row (close_wait_row (estab_row (syn_rcvd_row (listen_row blank_server)))))))))
