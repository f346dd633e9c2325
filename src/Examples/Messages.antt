-- ===== src/Examples/Messages.antt =====
-- Two tokens that wait for one message.
use bpm_new.Common.{ℕ, Bool, false, none, List, [], codes}
use bpm_new.Engine.Messages.Defs.{Subscription, subscribe}

abbrev nobody : ℕ → Bool
nobody _ = false

-- Token 7 has waited longer than token 8.
abbrev waiting_ones : List Subscription
waiting_ones =
    subscribe 2 20 1 9 8 none (codes "paid") (codes "A1") none
      (subscribe 1 10 1 9 7 none (codes "paid") (codes "A1") none [])
