-- ===== src/Start.antt =====
-- The start of `main` in simple/frontend/main.cpp: the parameters, the seeds of the random sources, and
-- the creation of the parties. The files are read through an argument, which gives the text of a file
-- or `none` if it cannot be opened.
pub mod Decimal
pub mod Reading
pub mod Instances
pub mod Distinct
pub mod Seeds
use malicious_mpsi.Base.{
  ℕ, suc, ◌-◌, ◌%◌, ◌^◌, List, [], ◌∷◌, Option, none, some, get_elem?, replicate, length, ltb, for,
  if◌then◌else◌, ◌>>=◌,
}
use malicious_mpsi.Block.{Blocks}
use malicious_mpsi.Random.{Random, Crypto}
use malicious_mpsi.Config.{ℤ, Text, Parameters, read_protocol_parameters, get_values, set_ips}
use malicious_mpsi.Exchange.{set_ports}
use malicious_mpsi.Sockets.{SystemCalls, World, Run}
use malicious_mpsi.Party.{Common, set_common, P0, creating_p0_instance, Pi, new_pi}

-- `m_cConstSeed`: the digit strings as numbers. None begins with a zero.
unfoldable pub const_seeds : List ℕ
const_seeds =
    437398417012387813714564100 ∷ 15657566154164333269053561 ∷ 345353656745745679457845
    ∷ 45346565757754721232645745 ∷ 565657776767688668686434 ∷ 232324546565743545454542323
    ∷ 11117812368245852473965742 ∷ 283728362864268427537523 ∷ 83467365736745325637547237
    ∷ 766432973541628309724783 ∷ 874563278200376642634859957 ∷ 43875393272645475958373635
    ∷ 276435474389482746588290 ∷ 37363534628193847564839029 ∷ 484389723762187219003948
    ∷ 437398417012387813714564100 ∷ 15657566154164333269053101 ∷ 345353656745745679457102
    ∷ 45346565757754721232645103 ∷ 565657776767688668686104 ∷ 232324546565743545454542105
    ∷ 11117812368245852473965106 ∷ 283728362864268427537107 ∷ 83467365736745325637547108
    ∷ 766432973541628309724109 ∷ 874563278200376642634859110 ∷ 43875393272645475958373111
    ∷ 276435474389482746588112 ∷ 37363534628193847564839113 ∷ 484389723762187219003114
    ∷ 437398417012387813714564115 ∷ 15657566154164333269053116 ∷ 345353656745745679457117
    ∷ 45346565757754721232645118 ∷ 565657776767688668686119 ∷ 232324546565743545454542120
    ∷ 11117812368245852473965121 ∷ 283728362864268427537122 ∷ 83467365736745325637547123
    ∷ 766432973541628309724124 ∷ 874563278200376642634859125 ∷ 43875393272645475958373126
    ∷ 276435474389482746588127 ∷ 37363534628193847564839128 ∷ 484389723762187219003129
    ∷ 437398417012387813714564130 ∷ 15657566154164333269053131 ∷ 345353656745745679457132
    ∷ 45346565757754721232645133 ∷ 565657776767688668686134 ∷ 232324546565743545454542135
    ∷ 11117812368245852473965136 ∷ 283728362864268427537137 ∷ 83467365736745325637547138
    ∷ 766432973541628309724139 ∷ 874563278200376642634859140 ∷ 43875393272645475958373141
    ∷ 276435474389482746588142 ∷ 37363534628193847564839143 ∷ 484389723762187219003144
    ∷ 384837476629203847463894045 ∷ 38297437239823723298329749 ∷ 483732632839237292383930
    ∷ 39834738473921742023832983 ∷ 382732873621519128474908 ∷ []

-- `m_cConstSeed_p0`
unfoldable pub const_seeds_p0 : List ℕ
const_seeds_p0 =
    837398417082347831734964176 ∷ 23654364655126333279080012 ∷ 645789052310784374431129
    ∷ 92126573757754721332691149 ∷ 345278771167685662186414 ∷ 232324543655746546454542323
    ∷ 36928942743746286342987426 ∷ 908264524193774629302826 ∷ 74363294372394389237329172
    ∷ 398438274236728346823476 ∷ 348734975749574385793474873 ∷ 43485748374939454567345683
    ∷ 438423485920232302439434 ∷ 59838743766432764823467824 ∷ 328984234723847823748347
    ∷ 547534894573495739457834572 ∷ 49549854374382747923492344 ∷ 548503845834959834585490
    ∷ 83479574957495748574857458 ∷ 493802938483473874837483 ∷ 129230438498359849584958945
    ∷ 43940394344923483904834430 ∷ 438493723497347347832749 ∷ 47384792342364934387643874
    ∷ 389430274234739847834783 ∷ 752145486432546487875421254 ∷ 43847394729347387483748374
    ∷ 430423948395894898889384 ∷ 43943094302492384384839484 ∷ 893473827643746272882737
    ∷ 843463746273423546235463544 ∷ 74637264728343546354627343 ∷ 983473642376434379483744
    ∷ 56347637482636437229103284 ∷ 743846384628374736476763 ∷ 192193829388473847387484387
    ∷ 43488293271873236628898374 ∷ 434878273283728738233827 ∷ 54859849387372376233627447
    ∷ 438493894839207423478344 ∷ 125368214578788854542258412 ∷ 35215487878565656822564125
    ∷ 232843943758247548578475 ∷ 12198373947384782374837484 ∷ 483947238973347283478347
    ∷ 349384927374873878573482948 ∷ 12343943584985498554898999 ∷ 939849357348728734384777
    ∷ 78312683615436546345364554 ∷ 343455453656565766767566 ∷ 530830428374827349738473847
    ∷ 12139204930483489348933029 ∷ 892837248374837823956234 ∷ 43940239493485838948372327
    ∷ 438472397489237483743447 ∷ 439403825829347123023943849 ∷ 10314839482340283408324303
    ∷ 549504950340584584958945 ∷ 54504550453954545454545455 ∷ 438985948058495849584959
    ∷ 434893726392574985748957485 ∷ 83727362476282910374732283 ∷ 984398427384723646729122
    ∷ 23298438748374857485748575 ∷ 434983985478574875487584 ∷ []

-- What the parameters and the files give.
pub record Settings : Type 0 where
  pub common : Common
  pub num_of_ones : ℕ
  pub ips : List Text
  pub parties : ℕ
  pub ports : List (ℕ × ℕ)

-- A parameter as the `int` that it is passed as. One that becomes negative is not followed further:
-- no memory of that size can be had.
unfoldable pub as_int : ℕ → Option ℕ
as_int n = if ltb (n % 2 ^ 32) (2 ^ 31) then some (n % 2 ^ 32) else none

-- Step 1 and `Party::set`.
unfoldable pub start : (Text → Option Text) → Option Text → ℕ → Option Settings
start read cfg player = do
  p ← read_protocol_parameters cfg
  items ← get_values (read p.data_file)
  (ips, parties) ← set_ips (read p.ip_file)
  nbf ← as_int p.nbf
  not ← as_int p.not
  nc ← as_int p.nc
  max_ones ← as_int p.nr
  seeds_num ← as_int p.seeds
  num_of_ones ← as_int p.num_of_ones
  some (record {
    common = set_common items (length items) nbf not nc 16 max_ones seeds_num;
    num_of_ones = num_of_ones;
    ips = ips;
    parties = parties;
    ports = set_ports player parties;
  })

-- `crypto(m_nSecParam,constSeed)` of ENCRYPTO_utils, which is outside the repository.
pub record Seeding ⦃r : Random⦄ : Type 0 where
  pub new_crypto : ℕ → ℕ → Crypto

module _ ⦃b : Blocks⦄ ⦃r : Random⦄ ⦃k : Seeding⦄ where
  -- The source of seed `i` of a table. A read past its end is a fault.
  unfoldable pub source_at : List ℕ → ℕ → Option Crypto
  source_at seeds i = do seed ← get_elem? seeds i; some (k.new_crypto 128 seed)

  module _ ⦃c : SystemCalls⦄ where
    -- The instances of P0, one for each other party.
    unfoldable pub start_p0 : Settings → World → Option (List (Option P0) × World)
    start_p0 s w =
        for (s.parties - 1) 1
          (λ i made. do
            port ← get_elem? s.ports i
            crypt ← source_at const_seeds_p0 i
            creating_p0_instance s.common (i - 1) port.0 s.num_of_ones crypt made)
          (replicate (s.parties - 1) none, w)

    unfoldable pub start_pi : ℕ → Settings → ℕ → World → Option (Run Pi)
    start_pi fuel s player w = do
      crypt ← source_at const_seeds player
      new_pi fuel s.common s.num_of_ones crypt s.parties s.ports s.ips player w
