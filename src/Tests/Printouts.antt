-- ===== src/Tests/Printouts.antt =====
-- Lines of two connections, and a list of addresses from a file.
use iftop_dotqoo.Prelude.{
  List, Option, [], arith, false, flatten, if◌then◌else◌, length, map, some, take, true, ℕ, ◌++◌,
  ◌+◌, ◌-◌, ◌∷◌, ◌≡◌, ◌≤◌, ◌⊎◌,
}
use iftop_dotqoo.Run.{fault, ok, use_after_free}
use iftop_dotqoo.Text.{Text, codes, equal}
use iftop_dotqoo.Text.Decimal.{print_decimal, print_digits}
use iftop_dotqoo.ServHash.{serv_hash_create}
use iftop_dotqoo.Printout.{
  Printer, Services, history_line, host_text, last_lines, pad_right, print_all_history,
  service_text, sprint_host,
}
use iftop_dotqoo.Printout.Line.{sprint_host_lem}
use iftop_dotqoo.Printout.Listing.{print_all_history-flatten}
use iftop_dotqoo.TargetList.{
  AddrList, free_addr_list, print_list, read_ip_from_file, read_ip_from_file-free_addr_list,
}
use iftop_dotqoo.Tests.{two_items, two_items-IsValid}

abbrev services : Services
services = record { portresolution = false; service_hash = serv_hash_create }

abbrev printer : Printer
printer = record {
  inet_ntop = λ a. codes "8.8.4.4";
  services = services;
  aggregate_src = false;
  aggregate_dest = false;
  behind_src = λ key. [];
  behind_dst = λ key. [];
}

print_all_history-flatten_example :
    print_all_history printer two_items
    ≡ some (
        map (history_line printer) (flatten two_items)
        ++ last_lines printer (length (flatten two_items)))
print_all_history-flatten_example = print_all_history-flatten printer two_items two_items-IsValid

service_short : length (service_text services 443 6) ≤ 16
unfolding service_text print_decimal print_digits
service_short = omega arith

host_short : length (host_text (λ a. codes "8.8.4.4") 67373064 [] false) ≤ 16
unfolding host_text
host_short = omega arith

-- The host and ":443" in 16 characters.
sprint_host_lem_example :
    (cut : ℕ) × (cut + length (service_text services 443 6) ≤ 16)
    × (sprint_host (λ a. codes "8.8.4.4") services true 67373064 [] 443 6 16 false
        ≡ take cut (host_text (λ a. codes "8.8.4.4") 67373064 [] false)
          ++ pad_right (16 - cut) (service_text services 443 6))
    × (length (sprint_host (λ a. codes "8.8.4.4") services true 67373064 [] 443 6 16 false) ≡ 16)
    × ((cut ≡ length (host_text (λ a. codes "8.8.4.4") 67373064 [] false))
        ⊎ (cut + length (service_text services 443 6) ≡ 16))
sprint_host_lem_example =
    sprint_host_lem (λ a. codes "8.8.4.4") services 67373064 [] 443 6 16 false host_short
      service_short (omega arith)

abbrev two_lines : List Text
two_lines = codes "8.8.8.8\n" ∷ codes "8.8.4.4\n" ∷ []

abbrev address : Text → Option ℕ
address s = if equal s (codes "8.8.8.8\n") then some 134744072 else some 67373064

read_ip_from_file-free_addr_list_example :
    (print_list (read_ip_from_file address 0 (some two_lines) []).0
      ≡ ok (67373064 ∷ 134744072 ∷ []))
    × (head : AddrList) × (free_addr_list (read_ip_from_file address 0 (some two_lines) []).0
        ≡ ok head)
    × (print_list head ≡ fault use_after_free)
    × (free_addr_list head ≡ fault use_after_free)
read_ip_from_file-free_addr_list_example = read_ip_from_file-free_addr_list address 0 two_lines
