-- ===== src/Common/Trip.antt =====
-- A call of a server over the network: it is answered, it is lost on its way there, or it is done
-- and its answer is lost.
pub data Trip : Type 0 where
  answered unsent unanswered : Trip
