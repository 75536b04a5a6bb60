-- ===== src/Network/Await.antt =====
-- What a blocking call gives back: its result, or that it still waits for another thread.
pub data Await (A : Type 0) : Type 0 where
  waiting : Await A
  done : A → Await A
