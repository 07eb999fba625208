-- ===== src/Net/Close/Tests.antt =====
-- A queue of two connections.
use gostalkd.Prelude.{refl, [], ◌∷◌, some, none, ◌==◌, if◌then◌else◌, Yields, arith}
use gostalkd.Machine.{World}
use gostalkd.Machine.Sample.{sample_world, sample_conn}
use gostalkd.Net.Close.{epoll_q_apply, epoll_q_rm_conn}
use gostalkd.Net.Close.Chain.{Chain, Applied, epoll_q_apply-Applied, epoll_q_rm_conn-Chain}

abbrev queued : World
queued = record sample_world {
  epoll_q = some 3;
  conn = λ c. record sample_conn { next = if c == 3 then some 5 else none };
}

epoll_q_apply-Applied_example :
    Yields (λ out. Applied queued (3 ∷ 5 ∷ []) out.1) (epoll_q_apply queued)
epoll_q_apply-Applied_example =
    epoll_q_apply-Applied queued (3 ∷ 5 ∷ []) (λ n. refl) (refl, (refl, refl))
      ((λ e. absurd (omega (arith, e)), tt), (tt, tt)) (omega arith)

epoll_q_rm_conn-Chain_example :
    Yields (λ out. Chain out.1.conn out.1.epoll_q (5 ∷ [])) (epoll_q_rm_conn 3 queued)
epoll_q_rm_conn-Chain_example =
    epoll_q_rm_conn-Chain queued 3 (3 ∷ 5 ∷ []) (refl, (refl, refl))
      ((λ e. absurd (omega (arith, e)), tt), (tt, tt)) (omega arith)
